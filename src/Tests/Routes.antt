-- ===== src/Tests/Routes.antt =====
-- A concrete response of Venice (verifiers/venice.py), OS image archive (verifiers/aci.py), route
-- (probes/assessments.py), view (probes/health.py) and alert (probes/diffalert.py).
use awesome_private_inferenc.Prelude.{
  ℕ, ◌*◌, ◌+◌, String, ◌≡◌, refl, Bool, true, false, Option, none, some, List, [], ◌∷◌, ◌++◌,
  string_eq, nat_eq, list_eq, All, contains, length,
}
use awesome_private_inferenc.Prelude.Dict.{Dict, lookup, keys}
use awesome_private_inferenc.Prelude.Text.{codes, nonblank}
use awesome_private_inferenc.Json.{Json, str}
use awesome_private_inferenc.Verifiers.Hex.{Bytes, to_hex, from_hex}
use awesome_private_inferenc.Verifiers.Bindings.{
  phala_report_data_binds_addr_nonce, without_0x, ljust,
}
use awesome_private_inferenc.Verifiers.Reports.{AttestationReport}
use awesome_private_inferenc.Verifiers.Venice.{
  World, status, quote_hex, binds_key, key_derives, gpu_attested, scorecard, is_valid, appraised,
  verify, signing_address,
}
use awesome_private_inferenc.Verifiers.Venice.Fresh.{IsBacked, valid-IsBacked, valid_fresh}
use awesome_private_inferenc.Alerts.{findings, update, acked_quiet}
use awesome_private_inferenc.Verifiers.Aci.Archive.{
  Server, os_image_is_production, download, scan, accept, judge, manifest_binds_metadata,
  split_lines, split_once, cut_word, strip_left, base_name, ends_with,
}
use awesome_private_inferenc.Verifiers.Aci.Production.{production-IsVouched, IsVouched}
use awesome_private_inferenc.Health.{
  Latest, QueueStatus, hour, check, check_latest, check_providers, check_rows, check_queue,
  check_jobs, check_references, stale, is_overdue,
}
use awesome_private_inferenc.Health.Quiet.{quiet-IsHealthy, IsCurrent, IsTended, IsCaptured}
use awesome_private_inferenc.Result.{ok}
use awesome_private_inferenc.Assessments.{
  Cell, Route, validate, check_routes, check_route, check_cells, check_cell, rollup,
}
use awesome_private_inferenc.Assessments.Reviewed.{
  IsReviewed, IsDistinct, validate-IsReviewed, rollup-All,
}

abbrev venice_nonce : List ℕ
venice_nonce = codes "ffeeddccbbaa99887766554433221100ffeeddccbbaa99887766554433221100"

abbrev venice_world : World
venice_world = record {
  appraise = λ quote. record {
    verified = true;
    reportdata =
        some (
          codes "000102030405060708090a0b0c0d0e0f10111213000000000000000000000000" ++ venice_nonce);
    mrconfig = none;
  };
  keccak_eth_address = λ key. none;
  sha256_hex = λ text. text;
  loads = λ text. none;
  attest_gpu = λ payload. none;
}

abbrev venice_answer : Dict String Json
venice_answer =
    ("intel_quote", str "04")
    ∷ ("signing_address", str "0x000102030405060708090a0b0c0d0e0f10111213")
    ∷ []

abbrev venice_report : AttestationReport
venice_report =
    appraised venice_world "m" venice_answer
      (scorecard venice_world venice_answer (str "04") venice_nonce none)

venice_runs : verify venice_world "m" (status 200 venice_answer) venice_nonce ≡ some venice_report
unfolding verify quote_hex lookup gpu_attested
venice_runs = refl

venice_valid : venice_report.valid ≡ true
unfolding appraised scorecard is_valid binds_key key_derives lookup
    phala_report_data_binds_addr_nonce from_hex to_hex ljust
venice_valid = refl

valid-IsBacked_example : (◌≡◌ {A = ℕ} 200 200) × IsBacked venice_world venice_answer venice_nonce
valid-IsBacked_example =
    valid-IsBacked venice_world "m" 200 venice_answer venice_nonce venice_runs venice_valid

abbrev venice_address : Bytes
venice_address =
    0 ∷ 1 ∷ 2 ∷ 3 ∷ 4 ∷ 5 ∷ 6 ∷ 7 ∷ 8 ∷ 9 ∷ 10 ∷ 11 ∷ 12 ∷ 13 ∷ 14 ∷ 15 ∷ 16 ∷ 17 ∷ 18 ∷ 19 ∷ []

venice_address_here : from_hex (without_0x (signing_address venice_answer)) ≡ some venice_address
unfolding from_hex lookup
venice_address_here = refl

valid_fresh_example : venice_nonce ≡ venice_nonce
valid_fresh_example =
    valid_fresh venice_world "m" 200 venice_answer venice_nonce venice_nonce venice_address
      venice_address_here venice_runs venice_valid venice_runs venice_valid

abbrev gap_cell : Cell
gap_cell = record {
  state = "gap";
  reason = some "r";
  label = some "l";
  evidence = some "e";
  missing = some "m";
  limitation = some "ours";
  issue_urls = some [];
  proof_records = [];
}

abbrev reviewed_route : Route
reviewed_route = record {
  id = "venice/m";
  axes =
      ("hardware", gap_cell)
      ∷ ("session", gap_cell)
      ∷ ("code", gap_cell)
      ∷ ("operator", gap_cell)
      ∷ ("downstream", gap_cell)
      ∷ ("updates", record gap_cell { state = "established"; proof_records = "p" ∷ [] })
      ∷ [];
  reviewed_at = some "2026-10-01";
  source_revision = some "abc";
  sources = "providers/venice.md" ∷ [];
  reviewer = some "ann";
}

abbrev any_date : String → Bool
any_date text = true

validate_runs : validate any_date (some 2) (reviewed_route ∷ []) ≡ ok tt
unfolding validate check_routes check_route check_cells check_cell nonblank
validate_runs = refl

validate-IsReviewed_example :
    (◌≡◌ {A = Option ℕ} (some 2) (some 2))
    × IsDistinct (reviewed_route ∷ [])
    × All (IsReviewed any_date) (reviewed_route ∷ [])
validate-IsReviewed_example =
    validate-IsReviewed any_date (some 2) (reviewed_route ∷ []) validate_runs

rollup_runs : rollup (gap_cell ∷ gap_cell ∷ []) ≡ "gap"
unfolding rollup
rollup_runs = refl

rollup-All_example : All (λ cell. cell.state ≡ "gap") (gap_cell ∷ gap_cell ∷ [])
rollup-All_example = rollup-All (gap_cell ∷ gap_cell ∷ []) "gap" rollup_runs (λ e. cc)

-- a stamp is as many hours after hour 100 as it has letters
abbrev at_hour : String → Option ℕ
at_hour text = some ((100 + length (codes text)) * hour)

abbrev fresh_view : Latest
fresh_view = record {
  generated_at = some "aaa";
  attestations =
      ("venice", record { model = "m"; last_attempt_at = none; verified_at = some "aa" } ∷ []) ∷ [];
}

abbrev tended : QueueStatus
tended = record {
  generated_at = some "aaaa";
  jobs =
      record {
        event_id = "drift-0001";
        status = some "running";
        lease_until = some "aaaaaa";
        lease_expired = false;
      }
      ∷ [];
}

quiet_runs : check at_hour (105 * hour) (some fresh_view) (some tended) none 26 4 ≡ []
unfolding check check_latest check_providers check_rows check_queue check_jobs check_references
    stale is_overdue
quiet_runs = refl

quiet-IsHealthy_example :
    IsCurrent at_hour (105 * hour) 26 (some fresh_view)
    × IsTended at_hour (105 * hour) 4 (some tended)
    × IsCaptured at_hour (105 * hour) 26 none
quiet-IsHealthy_example =
    quiet-IsHealthy at_hour (105 * hour) (some fresh_view) (some tended) none 26 4 quiet_runs

-- an archive of one manifest and one metadata file, under a stand-in for the hash
abbrev manifest : Bytes
manifest = codes "ab  ./metadata.json\n"

abbrev image_server : Server
image_server = record {
  fetch = λ hash. some (record { content_length = some 4; body = 1 ∷ [] });
  untar = λ body. some (
      record { name = codes "d/sha256sum.txt"; size = 20; is_file = true; content = manifest }
      ∷ record { name = codes "d/metadata.json"; size = 2; is_file = true; content = codes "{}" }
      ∷ []);
  sha256 = λ bytes. codes "ab";
  utf8 = λ bytes. some bytes;
  is_dev = λ bytes. some false;
}

image_runs : os_image_is_production image_server (codes "ab") ≡ ok true
unfolding os_image_is_production download scan accept judge manifest_binds_metadata split_lines
    split_once cut_word strip_left base_name ends_with
image_runs = refl

production-IsVouched_example : IsVouched image_server (codes "ab") true
production-IsVouched_example = production-IsVouched image_server (codes "ab") true image_runs

abbrev acked_values : Dict String String
acked_values = ("valid:venice/m", "up") ∷ ("version:tinfoil/n", "d1") ∷ []

abbrev new_values : Dict String String
new_values = ("valid:venice/m", "down") ∷ []

acked_quiet_example :
    (findings (update acked_values new_values) new_values ≡ [])
    × ((key : String)
        → contains key (keys new_values) ≡ false
        → lookup key (update acked_values new_values) ≡ lookup key acked_values)
acked_quiet_example = acked_quiet acked_values new_values (refl, tt)
