-- ===== src/Tests/Evidence.antt =====
-- Concrete reports, quotes, ledgers and logs (probes/schema.py, probes/quality.py, verifiers/*.py).
use awesome_private_inferenc.Verifiers.Preimage.{
  public_compose_preimage, has_literal, assignment, after_names, after_name,
}
use awesome_private_inferenc.Verifiers.Preimage.Withheld.{IsClean, HasLiteral, withheld-HasLiteral}
use Prim.Native.Nat.{◌%◌}
use awesome_private_inferenc.Prelude.{
  ℕ, ◌+◌, String, ◌≡◌, ◌≢◌, ◌↔◌, ◌⊎◌, refl, Bool, true, false, Option, none, some, List, [], ◌∷◌,
  arith, All, ◌++◌, contains, length, eq_iff, string_eq, nat_eq, list_eq, map,
}
use awesome_private_inferenc.Prelude.Dict.{Dict, lookup, insert}
use awesome_private_inferenc.Prelude.Text.{codes, lower, is_prefix, is_infix}
use awesome_private_inferenc.Json.{Json, str, bool, null, num}
use awesome_private_inferenc.Result.{ok}
use awesome_private_inferenc.Schema.Names.{verified, unavailable, outcome_named}
use awesome_private_inferenc.Schema.Reports.{Report}
use awesome_private_inferenc.Schema.Classify.{
  classify_report, classify_text, classify_error, classify_report-verified, IsClaimed,
}
use awesome_private_inferenc.Cadence.{Outcomes, tally, tally_from, visit}
use awesome_private_inferenc.Cadence.Distinct.{IsDistinct, changes_after, tally-changes}
use awesome_private_inferenc.Verifiers.Hex.{Bytes, to_hex, from_hex, from_hex-to_hex}
use awesome_private_inferenc.Verifiers.Scores.{
  as_dict, has_required_check_coverage, required_layers, is_layer_required, coverage-required,
}
use awesome_private_inferenc.Verifiers.Ledger.{
  Key, load_rows, load_audit_ledger, audit_match, IsLedgerKey, audit_match-ledger,
}
use awesome_private_inferenc.Verifiers.Bindings.{
  phala_report_data_binds_addr_nonce, without_0x, report_data_binds-inj, ljust,
}
use awesome_private_inferenc.Verifiers.Chutes.{
  Fetched, failed, answered, Quote, checks, Checks, Ends, Raises, chute_ids, verify-never_accepts,
  debug_disabled-last,
}
use awesome_private_inferenc.Verifiers.Chutes
use awesome_private_inferenc.Verifiers.Reports.{AttestationReport}
use awesome_private_inferenc.Verifiers.Aci.Decision.{
  World, too_large, Answers, event_log_bound, archive_prod, os_bound, compose_bound, scorecard,
  report, verify,
}
use awesome_private_inferenc.Verifiers.Aci.Accepted.{
  verify-never_valid, IsServedBy, serving_enforced-IsServedBy,
}
use awesome_private_inferenc.Verifiers.Aci.EventLog.{
  Event, utf8_char, encode, preimage, event_precedes_boot_boundary, index, bind, replay_from,
  replayed_rtmr3, events_bind_payloads, unique_event,
}
use awesome_private_inferenc.Verifiers.Aci.Measured.{measured, fold_extend, replay_from-measured}

abbrev accepted_report : Report
accepted_report = ("attestation_type", str "tdx+gpu") ∷ ("valid", bool true) ∷ ("error", null) ∷ []

-- the printed form of a value that is not a text
abbrev shown : Json → String
shown v = "..."

accepted_run : (classify_report shown false accepted_report).0 ≡ verified
unfolding classify_report classify_text classify_error lookup outcome_named is_infix
accepted_run = refl

classify_report-verified_example : IsClaimed shown false accepted_report
classify_report-verified_example =
    classify_report-verified shown false accepted_report
      (λ v there e. ground (arith, eq_iff "..." "")) accepted_run

-- an error that is not a text counts, though `valid` is true
failed_run :
    (classify_report shown false (("valid", bool true) ∷ ("error", num 7) ∷ [])).0 ≡ unavailable
unfolding classify_report classify_text classify_error lookup outcome_named is_infix
failed_run = refl

abbrev mixed_card : Dict String Json
mixed_card = ("tdx_verified", bool true) ∷ ("gpu_attested", num 1) ∷ ("nonce_bound", null) ∷ []

tally-changes_example :
    let t = tally ("a" ∷ "b" ∷ "b" ∷ "a" ∷ []) in
    IsDistinct t.seen
    × ((x : String) → contains x t.seen ≡ contains x ("a" ∷ "b" ∷ "b" ∷ "a" ∷ []))
    × (length t.seen ≡ t.novel + 1)
    × (t.novel + t.revisit ≡ changes_after "a" ("b" ∷ "b" ∷ "a" ∷ []))
tally-changes_example = tally-changes "a" ("b" ∷ "b" ∷ "a" ∷ [])

tally_run : (tally ("a" ∷ "b" ∷ "b" ∷ "a" ∷ [])).revisit ≡ 1
unfolding tally tally_from visit
tally_run = refl

abbrev no_rows : Outcomes
no_rows = record { pass = 0; transport = 0; no_error_invalid = 0; verification_failure = 0 }

abbrev rows : List (Bool × String)
rows = (true, "") ∷ (false, "timeout") ∷ (false, "bad quote") ∷ (false, "") ∷ []

from_hex-to_hex_example : from_hex (to_hex (0 ∷ 171 ∷ 255 ∷ [])) ≡ some (0 ∷ 171 ∷ 255 ∷ [])
from_hex-to_hex_example =
    from_hex-to_hex (0 ∷ 171 ∷ 255 ∷ []) (omega arith, (omega arith, (omega arith, tt)))

abbrev chutes_card : Dict String (Option Bool)
chutes_card =
    ("tdx_verified", some true)
    ∷ ("nonce_bound", some true)
    ∷ ("report_data_binds_key", some true)
    ∷ ("serving_code_attested", some true)
    ∷ []

chutes_card_covered : has_required_check_coverage chutes_card "chutes-tee" ≡ true
unfolding has_required_check_coverage required_layers lookup
chutes_card_covered = refl

coverage-required_example :
    (is_layer_required "nonce_bound" "chutes-tee" ≡ true
      → lookup "nonce_bound" chutes_card ≡ some (some true))
    × (required_layers "chutes-tee" ≢ [])
coverage-required_example =
    coverage-required chutes_card "chutes-tee" "nonce_bound" chutes_card_covered

abbrev ledger_rows : List (Key × String)
ledger_rows = (codes "ABCD1234", "audited") ∷ []

ledger_loads :
    load_audit_ledger ledger_rows ≡ ok (codes "abcd1234" ∷ [], (codes "abcd1234", "audited") ∷ [])
unfolding load_audit_ledger load_rows insert
ledger_loads = refl

audit_match-ledger_example :
    ((entry : Key)
      → audit_match (codes "abcd1234ff") (codes "abcd1234" ∷ []) ≡ some entry
      → (is_prefix entry (map lower (codes "abcd1234ff")) ≡ true) × IsLedgerKey entry)
    × (audit_match (codes "abcd1234ff") (codes "abcd1234" ∷ []) ≡ none
        → All (λ k. is_prefix k (map lower (codes "abcd1234ff")) ≡ false) (codes "abcd1234" ∷ []))
audit_match-ledger_example =
    audit_match-ledger ledger_rows (codes "abcd1234" ∷ []) ((codes "abcd1234", "audited") ∷ []) 97
      (codes "bcd1234ff") ledger_loads

-- 20 bytes of address, padded, and 32 of nonce
abbrev address : List ℕ
address = codes "0x000102030405060708090a0b0c0d0e0f10111213"

abbrev nonce : List ℕ
nonce = codes "ffeeddccbbaa99887766554433221100ffeeddccbbaa99887766554433221100"

abbrev report_data : List ℕ
report_data = codes "000102030405060708090a0b0c0d0e0f10111213000000000000000000000000" ++ nonce

abbrev address_bytes : Bytes
address_bytes =
    0 ∷ 1 ∷ 2 ∷ 3 ∷ 4 ∷ 5 ∷ 6 ∷ 7 ∷ 8 ∷ 9 ∷ 10 ∷ 11 ∷ 12 ∷ 13 ∷ 14 ∷ 15 ∷ 16 ∷ 17 ∷ 18 ∷ 19 ∷ []

address_reads : from_hex (without_0x address) ≡ some address_bytes
unfolding from_hex
address_reads = refl

binds_run : phala_report_data_binds_addr_nonce report_data address nonce ≡ true
unfolding phala_report_data_binds_addr_nonce from_hex to_hex ljust
binds_run = refl

report_data_binds-inj_example : (address_bytes ≡ address_bytes) × (nonce ≡ nonce)
report_data_binds-inj_example =
    report_data_binds-inj report_data address address nonce nonce address_bytes address_bytes
      address_reads address_reads refl binds_run binds_run

abbrev sha_like : List ℕ → List ℕ
sha_like xs = xs

abbrev yes_all : Bytes → Option Bool
yes_all bytes = some true

abbrev answers : Chutes.Answers
answers = record {
  golden = [];
  instance_id = "i-1";
  e2e_pubkey = codes "key";
  quote = some (1 ∷ 2 ∷ []);
  cert_spki = some [];
}

verify-never_accepts_example :
    Ends sha_like yes_all
      ((id : String) × (lookup "GLM-5.2-TEE" chute_ids ≡ some id)
        × Raises sha_like yes_all (answered answers))
      (Chutes.verify sha_like yes_all (λ id n. answered answers) "GLM-5.2-TEE" nonce "key")
verify-never_accepts_example =
    verify-never_accepts sha_like yes_all (λ id n. answered answers) "GLM-5.2-TEE" nonce "key"

-- attributes with the DEBUG bit set
abbrev debug_quote : Quote
debug_quote = record {
  td_attributes = 1 ∷ 0 ∷ 0 ∷ 16 ∷ 0 ∷ 0 ∷ 0 ∷ 0 ∷ [];
  mrtd = [];
  report_data = [];
}

debug_disabled-last_example :
    ((checks sha_like yes_all nonce answers true debug_quote []).debug_disabled ≡ true)
    ↔ (0 % 2 ≡ 0)
debug_disabled-last_example =
    debug_disabled-last sha_like yes_all nonce answers true debug_quote []
      (1 ∷ 0 ∷ 0 ∷ 16 ∷ 0 ∷ 0 ∷ 0 ∷ []) 0 refl

abbrev boot_event : Event
boot_event = record {
  imr = some 0;
  digest = some (codes "0a");
  event = some (codes "acpi");
  event_type = some 1;
  event_payload = none;
}

abbrev compose_event : Event
compose_event = record {
  imr = some 3;
  digest = some (codes "0b0c");
  event = some (codes "compose-hash");
  event_type = some 134217729;
  event_payload = some (codes "ff");
}

abbrev log : List Event
log = boot_event ∷ compose_event ∷ []

replay_from-measured_example :
    replay_from sha_like [] log ≡ bind (measured log) (λ ds. some (fold_extend sha_like [] ds))
replay_from-measured_example = replay_from-measured sha_like [] log

-- a gateway whose log measures one compose file, then the boot boundary
abbrev compose_digest : List ℕ
compose_digest = codes "64"

-- a stand-in for both hashes: the hex of the last byte
abbrev last_hex : List ℕ → List ℕ
last_hex [] = codes "00"
last_hex (b ∷ []) = to_hex (b ∷ [])
last_hex (b ∷ c ∷ bs) = last_hex (c ∷ bs)

abbrev last_byte : Bytes → Bytes
last_byte [] = []
last_byte (b ∷ []) = b ∷ []
last_byte (b ∷ c ∷ bs) = last_byte (c ∷ bs)

abbrev measured_event : List ℕ → List ℕ → List ℕ → Event
measured_event name payload digest = record {
  imr = some 3;
  digest = some digest;
  event = some name;
  event_type = some 134217729;
  event_payload = some payload;
}

abbrev gateway_log : List Event
gateway_log =
    boot_event
    ∷ measured_event (codes "compose-hash") compose_digest compose_digest
    ∷ measured_event (codes "boot-mr-done") (codes "01") (codes "01")
    ∷ []

abbrev gateway_world : World
gateway_world = record {
  sha256 = last_hex;
  sha384 = last_byte;
  jcs = λ j. [];
  ed25519 = λ k s p. false;
  secp256k1 = λ k r s p. false;
  appraise = λ q. record { verified = true; reportdata = some []; rtmr3 = some (codes "0x01") };
  tee_only_domains = λ c. some ("tee.example" ∷ []);
  os_image = λ h. too_large;
}

abbrev gateway : Answers
gateway = record {
  served_digest = "sha256:00";
  keyset = null;
  identity_key = none;
  endorsement = none;
  workload_id = none;
  report_data = codes "00";
  quote = [];
  event_log = gateway_log;
  app_compose = codes "d";
  os_image_hash = codes "ab";
  sessions_carry_evidence = true;
  catalog_nonempty = true;
}

abbrev gateway_report : AttestationReport
gateway_report =
    report gateway_world gateway "tee.example" true
      (scorecard gateway_world gateway "tee.example" "n" true ("tee.example" ∷ []) (some false))
      (some false)

gateway_runs : verify gateway_world gateway "tee.example" "n" ≡ some gateway_report
unfolding verify event_log_bound events_bind_payloads replayed_rtmr3 replay_from preimage encode
    utf8_char from_hex to_hex archive_prod os_bound unique_event
gateway_runs = refl

gateway_serves : gateway_report.scorecard.attested_serving_enforced ≡ some true
unfolding report scorecard compose_bound unique_event event_precedes_boot_boundary index from_hex
    to_hex
gateway_serves = refl

verify-never_valid_example :
    (gateway_report.valid ≡ false)
    × (has_required_check_coverage (as_dict gateway_report.scorecard) "aci-gateway" ≡ false)
verify-never_valid_example = verify-never_valid gateway_world gateway "tee.example" "n" gateway_runs

serving_enforced-IsServedBy_example : IsServedBy gateway_world gateway "tee.example"
serving_enforced-IsServedBy_example =
    serving_enforced-IsServedBy gateway_world gateway "tee.example" "n" gateway_runs gateway_serves

abbrev plain_secret : List ℕ
plain_secret = codes "env: [API-KEY = \"hunter2hunter2\"]"

withheld-HasLiteral_example :
    let p = public_compose_preimage (λ text. text) plain_secret in
    (p.app_compose_sha256 ≡ plain_secret)
    × ((p.withheld ≡ false) × (p.app_compose ≡ some plain_secret) × IsClean plain_secret
        ⊎ (p.withheld ≡ true) × (p.app_compose ≡ none) × HasLiteral plain_secret)
withheld-HasLiteral_example = withheld-HasLiteral (λ text. text) plain_secret

plain_secret_withheld : (public_compose_preimage (λ text. text) plain_secret).withheld ≡ true
unfolding public_compose_preimage has_literal assignment after_names after_name is_prefix
plain_secret_withheld = refl

-- a secret that stands in the same word as a reference is not withheld
hidden_secret :
    (public_compose_preimage (λ text. text) (codes "?token=${T}&password=hunter2hunter2")).withheld
    ≡ false
unfolding public_compose_preimage has_literal assignment after_names after_name is_prefix
hidden_secret = refl
