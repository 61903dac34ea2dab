-- ===== src/Tests/Tinfoil.antt =====
-- A concrete bundle, release and router for verifiers/tinfoil.py.
use mathlib.Core.List.{Permᴰ}
use awesome_private_inferenc.Prelude.{
  ℕ, String, ◌≡◌, ◌↔◌, refl, Bool, true, false, Option, none, some, List, [], ◌∷◌, if◌then◌else◌,
  nat_eq, list_eq, string_eq, length, ◌<◌, All, Bool-cases, inl, inr, arith, zero, suc, ◌==◌,
}
use Prim.Native.Nat.{◌/◌, ◌%◌, ◌^◌}
use awesome_private_inferenc.Prelude.Dict.{Dict, lookup}
use awesome_private_inferenc.Prelude.Text.{
  codes, codes_le, is_prefix, is_infix, sort_texts, place_text,
}
use awesome_private_inferenc.Json.{Json, Fields, end, field, nil, cons, str, arr, obj, null}
use awesome_private_inferenc.Result.{ok, err}
use awesome_private_inferenc.Verifiers.Hex.{IsByte, to_hex}
use awesome_private_inferenc.Verifiers.Ledger.{Key}
use awesome_private_inferenc.Verifiers.Scores.{as_dict, has_required_check_coverage}
use awesome_private_inferenc.Verifiers.Tinfoil.World.{
  World, Certificate, Payload, eof_or_zlib_error, truncated_gzip, missing_key,
}
use awesome_private_inferenc.Verifiers.Tinfoil.Sev.{parse, fields_of, little_endian, debug_bit}
use awesome_private_inferenc.Verifiers.Tinfoil.Sev.Layout.{byte_at, parse_layout}
use awesome_private_inferenc.Verifiers.Tinfoil.Config.{
  Outcome, ConfigAudit, fully_attested, labelled_hash, config_hash_in, iterate, list_at,
  external_settings, attested_settings, is_pinned, audit_container, audit_containers, bound_config,
  audit_attested_config,
}
use awesome_private_inferenc.Verifiers.Tinfoil.Config.Sealed.{IsSealedConfig, audit-IsSealedConfig}
use awesome_private_inferenc.Verifiers.Tinfoil.Dcode.{
  repeat, number_of, first_label, read_name, chunk_le, place, sort, chunks_of, combined, padded,
  decode_dcode,
}
use awesome_private_inferenc.Verifiers.Tinfoil.Dcode.Order.{decode_dcode-perm}
use awesome_private_inferenc.Verifiers.Tinfoil.Provenance.{
  Bundle, after_prefix, up_to_at, san_matches, identity_accepts, digest_audited, names_digest,
  any_names, verify_sigstore, extract_snp_measurement,
}
use awesome_private_inferenc.Verifiers.Tinfoil.Provenance.Signed.{
  HonoursPolicy, IsSigned, verify_sigstore-IsSigner,
}
use awesome_private_inferenc.Verifiers.Tinfoil.Bundle.{
  Report, malformed_report, rejection, start_details, start_scorecard, san_strings, att_doc_hash,
  sev_report, caught_report, open_report, check_release, check_certificate, check_live, unverified,
  steps, verify_bundle,
}
use awesome_private_inferenc.Verifiers.Tinfoil.Bundle.Evidence.{
  IsBacked, verify_bundle-IsBacked, verify_bundle-never_valid,
}
use awesome_private_inferenc.Verifiers.Tinfoil.Bundle.Errors.{verify_bundle-truncated}
use awesome_private_inferenc.Verifiers.Tinfoil.Routing.{
  Network, ids_of, repos_of, pinned_models, served_models, model_repo_anchor, with_anchor, verify,
}
use awesome_private_inferenc.Verifiers.Tinfoil.Routing.Anchor.{IsAnchored, verify-IsAnchored}

abbrev hash_text : String
hash_text = "aaaaaaaaaaaaaaaaaaaaaaaaaaaaaaaaaaaaaaaaaaaaaaaaaaaaaaaaaaaaaaaa"

abbrev measurement_text : String
measurement_text =
    "000000000000000000000000000000000000000000000000000000000000000000000000000000000000000000000000"

abbrev release_predicate : Fields
release_predicate = field "config" (str "eA==") (
    field "cmdline"
      (str
        "quiet tinfoil-config-hash=aaaaaaaaaaaaaaaaaaaaaaaaaaaaaaaaaaaaaaaaaaaaaaaaaaaaaaaaaaaaaaaa")
      (field "snp_measurement" (str measurement_text) end))

abbrev statement : Json
statement = obj (
    field "subject"
      (arr (cons (obj (field "digest" (obj (field "sha256" (str "d1") end)) end)) nil))
      (field "predicate" (obj release_predicate)
        (field "predicateType" (str "https://tinfoil.sh/predicate/sev-snp-guest/v2") end)))

abbrev certificate : Certificate
certificate = record {
  is_issued_by = λ issuer. issuer == "https://token.actions.githubusercontent.com";
  uris = some (codes "https://github.com/a/b/.github/workflows/build.yml@refs/tags/v1" ∷ []);
}

abbrev envelope_under : Bool → Option Payload
envelope_under true = some (record { payload_type = "application/vnd.in-toto+json"; body = [] })
envelope_under false = none

-- a container with one setting whose value stands in the configuration
abbrev config : Json
config = obj (
    field "containers"
      (arr (
        cons
          (obj (
            field "name" (str "c")
              (field "env" (arr (cons (obj (field "A" (str "1") end)) nil)) end)))
          nil))
      end)

abbrev world : World
world = record {
  sha256 = λ bytes. codes hash_text;
  utf8 = λ text. text;
  decode_utf8 = λ bytes. some bytes;
  b64decode = λ text. some text;
  b32decode =
      λ text. if is_prefix (codes "AA") text then some (repeat 32 0) else some (codes hash_text);
  gunzip = λ bytes. ok (repeat 1184 0);
  yaml = λ bytes. some config;
  loads = λ bytes. some statement;
  verify_dsse = λ signed policy. envelope_under (policy certificate);
  spki_sha256 = λ pem. some (to_hex (repeat 32 0));
  san_values = λ pem.
      some (some (codes "00AA.hpke.tinfoil.sh") ∷ some (codes "00BB.hatt.tinfoil.sh") ∷ none ∷ []);
  live_spki_sha256 = λ host. some (to_hex (repeat 32 0));
}

abbrev bundle : Bundle
bundle = record {
  domain = "router";
  digest = "d1";
  report_format = "https://tinfoil.sh/predicate/sev-snp-guest/v2";
  report_body_b64 = "H4s=";
  sigstore_bundle = null;
  enclave_cert_pem = "pem";
  vcek_b64 = "";
}

abbrev refused : Report
refused = rejection "" malformed_report (start_details none) start_scorecard

abbrev reached : Outcome Report → Report
reached (ok report) = report
reached (err e) = refused

abbrev no_ledger : Option (List (Key × Unit {0}))
no_ledger = none

All-bytes : (n : ℕ) → All IsByte (repeat n 0)
All-bytes zero = tt
All-bytes (suc n) = (omega arith, All-bytes n)

parse_layout_example :
    (length (repeat 1184 0) ≡ 1184)
    × (length (fields_of (repeat 1184 0)).report_data ≡ 64)
    × (length (fields_of (repeat 1184 0)).measurement ≡ 48)
    × ((fields_of (repeat 1184 0)).policy < 2 ^ 64)
    × (((fields_of (repeat 1184 0)).debug ≡ true) ↔ (byte_at 10 (repeat 1184 0) / 8 % 2 ≡ 1))
unfolding parse
parse_layout_example =
    parse_layout (repeat 1184 0) (fields_of (repeat 1184 0)) (All-bytes 1184) refl

abbrev predicate : Dict String Json
predicate =
    ("config", str "eA==")
    ∷ (
      "cmdline",
      str
          "quiet tinfoil-config-hash=aaaaaaaaaaaaaaaaaaaaaaaaaaaaaaaaaaaaaaaaaaaaaaaaaaaaaaaaaaaaaaaa",
    )
    ∷ []

abbrev empty_audit : ConfigAudit
empty_audit = record {
  cvm_version = none;
  container_count = 0;
  containers = [];
  total_env_external = 0;
  total_secrets_external = 0;
}

abbrev audited : Outcome ConfigAudit → ConfigAudit
audited (ok audit) = audit
audited (err e) = empty_audit

audit-IsSealedConfig_example : IsSealedConfig world predicate
unfolding fully_attested labelled_hash config_hash_in iterate list_at external_settings
    attested_settings is_pinned audit_container audit_containers bound_config audit_attested_config
    lookup is_prefix
audit-IsSealedConfig_example =
    audit-IsSealedConfig world predicate (audited (audit_attested_config world predicate)) refl refl

abbrev first_san : List ℕ
first_san = codes "01CC.hpke.tinfoil.sh"

abbrev second_san : List ℕ
second_san = codes "00AA.hpke.tinfoil.sh"

decode_dcode-perm_example :
    decode_dcode world.b32decode (first_san ∷ second_san ∷ []) (codes "hpke")
    ≡ decode_dcode world.b32decode (second_san ∷ first_san ∷ []) (codes "hpke")
decode_dcode-perm_example =
    decode_dcode-perm world.b32decode (first_san ∷ second_san ∷ []) (second_san ∷ first_san ∷ [])
      (codes "hpke") (Permᴰ.swap refl refl)

-- the chunks are sorted by number, and padded
dcode_text : padded (combined (sort ((10, codes "cc") ∷ (9, codes "aa") ∷ []))) ≡ codes "AACC===="
unfolding number_of first_label read_name chunk_le place sort chunks_of combined padded decode_dcode
    codes_le
dcode_text = refl

abbrev workflow_uri : List ℕ
workflow_uri = codes "https://github.com/a/b/.github/workflows/build.yml@refs/tags/v1"

world_honours : HonoursPolicy world (λ signed. certificate)
world_honours signed policy envelope h = elim (Bool-cases (policy certificate)) [
  | inl takes ↦ takes
  | inr other ↦ absurd (cc (rw other at h))
]

abbrev signed_release : Json × Json
signed_release = (obj release_predicate, str "https://tinfoil.sh/predicate/sev-snp-guest/v2")

verify_sigstore-IsSigner_example :
    IsSigned world (λ signed. certificate) bundle "a/b" signed_release
unfolding after_prefix up_to_at san_matches identity_accepts digest_audited names_digest any_names
    verify_sigstore extract_snp_measurement iterate list_at lookup
verify_sigstore-IsSigner_example =
    verify_sigstore-IsSigner world (λ signed. certificate) bundle "a/b" signed_release world_honours
      refl

verify_bundle-IsBacked_example : IsBacked world bundle "a/b"
unfolding parse fields_of little_endian debug_bit fully_attested labelled_hash config_hash_in
    iterate list_at external_settings attested_settings is_pinned audit_container audit_containers
    bound_config audit_attested_config number_of first_label read_name chunk_le place sort chunks_of
    combined padded decode_dcode after_prefix up_to_at san_matches identity_accepts digest_audited
    names_digest any_names verify_sigstore extract_snp_measurement rejection san_strings
    att_doc_hash sev_report caught_report open_report check_release check_certificate check_live
    unverified steps verify_bundle lookup is_prefix is_infix codes_le to_hex
verify_bundle-IsBacked_example =
    verify_bundle-IsBacked world no_ledger bundle "m" "a/b"
      (reached (verify_bundle world no_ledger bundle "m" "a/b")) refl (λ h. cc)

verify_bundle-never_valid_example :
    ((reached (verify_bundle world no_ledger bundle "m" "a/b")).valid ≡ false)
    × (has_required_check_coverage
          (as_dict (reached (verify_bundle world no_ledger bundle "m" "a/b")).scorecard)
          "tinfoil-sev-snp-v2"
        ≡ false)
unfolding parse fields_of little_endian debug_bit fully_attested labelled_hash config_hash_in
    iterate list_at external_settings attested_settings is_pinned audit_container audit_containers
    bound_config audit_attested_config number_of first_label read_name chunk_le place sort chunks_of
    combined padded decode_dcode after_prefix up_to_at san_matches identity_accepts digest_audited
    names_digest any_names verify_sigstore extract_snp_measurement rejection san_strings
    att_doc_hash sev_report caught_report open_report check_release check_certificate check_live
    unverified steps verify_bundle lookup is_prefix is_infix codes_le to_hex
verify_bundle-never_valid_example =
    verify_bundle-never_valid world no_ledger bundle "m" "a/b"
      (reached (verify_bundle world no_ledger bundle "m" "a/b")) refl

abbrev other_format : Bundle
other_format = record bundle { report_format = "tdx" }

abbrev cut_short : World
cut_short = record world { gunzip = λ bytes. err eof_or_zlib_error }

-- a gzip body that is cut short leaves the verifier as an exception
cut_short_raises : verify_bundle cut_short no_ledger bundle "m" "a/b" ≡ err truncated_gzip
unfolding digest_audited
cut_short_raises =
    verify_bundle-truncated cut_short no_ledger bundle "m" "a/b" none (codes "H4s=") refl refl refl
      refl

abbrev network : Network
network = record {
  atc_bundle = ok bundle;
  attestation = λ host. err missing_key;
  sigstore_bundle = λ repo. err missing_key;
  live_cert_pem = λ host. err missing_key;
  router_config =
      ok (obj (field "models" (obj (field "glm" (obj (field "repo" (str "a/glm") end)) end)) end));
  catalog = ok (obj (field "data" (arr (cons (obj (field "id" (str "kimi") end)) nil)) end));
}

abbrev ledgers : String → Option (List (Key × Unit {0}))
ledgers repo = none

-- the same bundle for the router's own repository
abbrev router_world : World
router_world = record world {
  verify_dsse =
      λ signed policy. some (record { payload_type = "application/vnd.in-toto+json"; body = [] });
}

verify-IsAnchored_example :
    IsAnchored network (reached (verify router_world network ledgers "router"))
unfolding parse fields_of little_endian debug_bit fully_attested labelled_hash config_hash_in
    iterate list_at external_settings attested_settings is_pinned audit_container audit_containers
    bound_config audit_attested_config number_of first_label read_name chunk_le place sort chunks_of
    combined padded decode_dcode after_prefix up_to_at san_matches identity_accepts digest_audited
    names_digest any_names verify_sigstore extract_snp_measurement rejection san_strings
    att_doc_hash sev_report caught_report open_report check_release check_certificate check_live
    unverified steps verify_bundle lookup is_prefix is_infix codes_le to_hex ids_of repos_of
    pinned_models served_models model_repo_anchor with_anchor verify sort_texts place_text
verify-IsAnchored_example =
    verify-IsAnchored router_world network ledgers "router"
      (reached (verify router_world network ledgers "router")) refl refl
