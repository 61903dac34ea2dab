-- ===== src/Verifiers/Tinfoil/Bundle.antt =====
-- verifiers/tinfoil.py: `verify_bundle` and `_err`. Of the details the model keeps the ones that a
-- step computes; the raw evidence, the fixed texts and the clocks are left out.
pub mod Backed
pub mod Evidence
pub mod Errors
use awesome_private_inferenc.Prelude.{
  ℕ, String, Bool, true, false, not, Option, none, some, List, [], ◌∷◌, ◌++◌, any, nat_beq,
  if◌then◌else◌, ◌==◌, nat_eq, list_eq, string_eq, length,
}
use awesome_private_inferenc.Prelude.Text.{codes}
use awesome_private_inferenc.Json.{Json, str}
use awesome_private_inferenc.Result.{Result, ok, err, ◌>>=◌, ◌>>◌, require, present}
use awesome_private_inferenc.Verifiers.Ledger.{Key}
use awesome_private_inferenc.Verifiers.Hex.{Bytes, to_hex}
use awesome_private_inferenc.Verifiers.Bindings.{take, slice}
use awesome_private_inferenc.Verifiers.Scores.{ScoreCard, blank}
use awesome_private_inferenc.Verifiers.Reports.{VerificationStatus, not_checked, rejected}
use awesome_private_inferenc.Verifiers.Tinfoil.World.{
  World, Exception, GzipError, os_error, eof_or_zlib_error, truncated_gzip, wrong_type,
  invalid_certificate, invalid_utf8, no_connection,
}
use awesome_private_inferenc.Verifiers.Tinfoil.Sev.{SnpReport, parse}
use awesome_private_inferenc.Verifiers.Tinfoil.Config.{
  Outcome, ConfigAudit, as_object, audit_attested_config, fully_attested,
}
use awesome_private_inferenc.Verifiers.Tinfoil.Dcode.{decode_dcode}
use awesome_private_inferenc.Verifiers.Tinfoil.Provenance.{
  Bundle, verify_sigstore, extract_snp_measurement, digest_audited, predicate_sev_v2,
}

-- The messages of the reports, less the values in them.
pub data Message : Type 0 where
  malformed_report debug_set measurement_mismatch : Message
  certificate_mismatch hpke_mismatch document_mismatch live_key_mismatch : Message
  hardware_not_verified : Message
  unpinned_models : ℕ → List String → Message

-- What the steps write into `details`.
pub record Details : Type 0 where
  pub digest_audited : Option Bool
  pub sev : Option SnpReport
  pub sigstore_measurement : Option Json
  pub attested_config : Option ConfigAudit
  pub sans_count : Option ℕ
  pub enclave_cert_spki : Option (List ℕ)
  pub hpke_pubkey : Option (List ℕ)
  pub att_doc_hash : Option (List ℕ)
  pub live_tls_spki : Option (List ℕ)
  pub models_unpinned : Option (List String)
  pub status : VerificationStatus

-- The report of provider tinfoil and type tinfoil-sev-snp-v2, with an empty signing address.
pub record Report : Type 0 where
  pub model : String
  pub valid : Bool
  pub signing_public_key : List ℕ
  pub scorecard : ScoreCard
  pub details : Details
  pub error : Message

-- How the steps end before the last one: with an exception, or with a report.
pub data Stop : Type 0 where
  raised : Exception → Stop
  reported : Report → Stop

abbrev pub Step : Type 0 → Type 0
Step = Result Stop

-- an exception that is not caught
abbrev pub run : {A : Type 0} → Outcome A → Step A
run (ok a) = ok a
run (err e) = err (raised e)

-- `_err`
unfoldable pub rejection : String → Message → Details → ScoreCard → Report
rejection model message details scorecard = record {
  model = model;
  valid = false;
  signing_public_key = [];
  scorecard = scorecard;
  details = record details { status = rejected };
  error = message;
}

-- `return _err(...)` unless the test holds
abbrev pub check : Bool → String → Message → Details → ScoreCard → Step (Unit {0})
check test model message details scorecard =
    require test (reported (rejection model message details scorecard))

abbrev pub start_scorecard : ScoreCard
start_scorecard = record blank { client_nonce_supported = some false }

abbrev pub start_details : Option Bool → Details
start_details audited = record {
  digest_audited = audited;
  sev = none;
  sigstore_measurement = none;
  attested_config = none;
  sans_count = none;
  enclave_cert_spki = none;
  hpke_pubkey = none;
  att_doc_hash = none;
  live_tls_spki = none;
  models_unpinned = none;
  status = not_checked;
}

abbrev pub is_hex : List ℕ → Json → Bool
is_hex hex (str s) = codes s == hex
is_hex hex _ = false

-- `model or bundle.domain`
abbrev pub label : String → Bundle → String
label model bundle = if model == "" then bundle.domain else model

-- How `sev_report` fails: a `ValueError` or `OSError`, or another exception.
pub data SevError : Type 0 where
  value_or_os_error other_error : SevError

abbrev unzipped : Result GzipError Bytes → Result SevError Bytes
unzipped (ok bytes) = ok bytes
unzipped (err os_error) = err value_or_os_error
unzipped (err eof_or_zlib_error) = err other_error

-- `[s for s in sans if isinstance(s, str)]`
unfoldable pub san_strings : List (Option (List ℕ)) → List (List ℕ)
san_strings [] = []
san_strings (none ∷ rest) = san_strings rest
san_strings (some s ∷ rest) = s ∷ san_strings rest

-- The key that a report carries: bytes 32 to 63 of its report data.
abbrev pub hpke_key : SnpReport → Bytes
hpke_key r = slice 32 32 r.report_data

-- `report.report_data[:32].hex()`
abbrev pub expected_tls_hash : SnpReport → List ℕ
expected_tls_hash r = to_hex (take 32 r.report_data)

-- the state between the steps: the report and what they wrote
pub record State : Type 0 where
  pub report : SnpReport
  pub details : Details
  pub scorecard : ScoreCard

-- `try: report = bundle.sev_report()`
unfoldable pub caught_report :
    String → Details → ScoreCard → Result SevError SnpReport → Step SnpReport
caught_report model details scorecard (ok report) = ok report
caught_report model details scorecard (err value_or_os_error) =
    err (reported (rejection model malformed_report details scorecard))
caught_report model details scorecard (err other_error) = err (raised truncated_gzip)

-- the last return, after `model or bundle.domain`
unfoldable pub unverified : Bundle → String → List ℕ → State → Report
unverified bundle model hpke_from_san s = record {
  model = label model bundle;
  valid = false;
  signing_public_key = hpke_from_san;
  scorecard = s.scorecard;
  details = s.details;
  error = hardware_not_verified;
}

module _ (w : World) where
  -- `att_doc_hash`
  unfoldable pub att_doc_hash : Bundle → List ℕ
  att_doc_hash b = w.sha256 (w.utf8 (codes b.report_format ++ codes b.report_body_b64))

  -- `sev_report`
  unfoldable pub sev_report : Bundle → Result SevError SnpReport
  sev_report b =
      require (b.report_format == predicate_sev_v2) value_or_os_error
      >> (present value_or_os_error (w.b64decode (codes b.report_body_b64)) >>= λ zipped.
          unzipped (w.gunzip zipped) >>= λ bytes. present value_or_os_error (parse bytes))

  -- the report itself, up to its debug bit
  unfoldable pub open_report : Bundle → String → Option Bool → Step State
  open_report bundle model audited =
      caught_report model (start_details audited) start_scorecard (sev_report bundle) >>= λ report.
      let details = record (start_details audited) { sev = some report } in
      check (not report.debug) model debug_set details start_scorecard
      >> ok (record { report = report; details = details; scorecard = start_scorecard })

  -- the signed release: its measurement and its configuration
  unfoldable pub check_release : Bundle → String → String → State → Step State
  check_release bundle model repo s = run (verify_sigstore w bundle repo) >>= λ release.
      let scorecard = record s.scorecard { release_provenance_verified = some true } in
      run (extract_snp_measurement release.0 release.1) >>= λ measurement.
      let details = record s.details { sigstore_measurement = some measurement } in
      check (is_hex (to_hex s.report.measurement) measurement) model measurement_mismatch details
        (record scorecard { measurement_matches_release = some false })
      >> (run (as_object release.0 >>= audit_attested_config w) >>= λ audit. ok (record {
        report = s.report;
        details = record details { attested_config = some audit };
        scorecard = record scorecard {
          measurement_matches_release = some true;
          runtime_config_fully_attested = some (fully_attested audit);
        };
      }))

  -- the certificate: its key and the names that carry the HPKE key and the document's hash
  unfoldable pub check_certificate : Bundle → String → State → Step (State × List ℕ)
  check_certificate bundle model s =
      run (present invalid_certificate (w.san_values (codes bundle.enclave_cert_pem))) >>= λ sans.
      run (present invalid_certificate (w.spki_sha256 (codes bundle.enclave_cert_pem))) >>= λ spki.
      let details = record s.details {
        sans_count = some (length sans);
        enclave_cert_spki = some spki;
      } in
      check (spki == expected_tls_hash s.report) model certificate_mismatch details s.scorecard
      >> (run (decode_dcode w.b32decode (san_strings sans) (codes "hpke")) >>= λ hpke.
          check (to_hex hpke == to_hex (hpke_key s.report)) model hpke_mismatch details s.scorecard
          >> (run (decode_dcode w.b32decode (san_strings sans) (codes "hatt")) >>= λ encoded.
              run (present invalid_utf8 (w.decode_utf8 encoded)) >>= λ hatt.
              let written = record details {
                hpke_pubkey = some (to_hex hpke);
                att_doc_hash = some (att_doc_hash bundle);
              } in
              let scorecard = record s.scorecard {
                hpke_pubkey_attested = some (any (λ b. not (nat_beq b 0)) (hpke_key s.report));
              } in
              check (hatt == att_doc_hash bundle) model document_mismatch written scorecard
              >> ok (
                record { report = s.report; details = written; scorecard = scorecard },
                to_hex hpke,
              )))

  -- the key that the host presents
  unfoldable pub check_live : Bundle → String → State → Step State
  check_live bundle model s =
      run (present no_connection (w.live_spki_sha256 bundle.domain)) >>= λ live.
      let pinned = live == expected_tls_hash s.report in
      let details = record s.details { live_tls_spki = some live } in
      let scorecard = record s.scorecard { tls_pubkey_pinned = some pinned } in
      check pinned model live_key_mismatch details scorecard
      >> ok (record { report = s.report; details = details; scorecard = scorecard })

  unfoldable pub steps :
      {Row : Type 0} → Option (List (Key × Row)) → Bundle → String → String → Step Report
  steps {Row} ledger bundle model repo = run (digest_audited ledger bundle.digest) >>= λ audited.
      open_report bundle model audited >>= λ opened.
      check_release bundle model repo opened >>= λ released.
      check_certificate bundle model released >>= λ certified.
      check_live bundle model certified.0 >>= λ live. ok (unverified bundle model certified.1 live)

-- A report that a step returns is the result.
abbrev pub settle : Step Report → Outcome Report
settle (ok report) = ok report
settle (err (reported report)) = ok report
settle (err (raised e)) = err e

-- `verify_bundle`, with the rows of the repository's ledger, if it has one
unfoldable pub verify_bundle :
    {Row : Type 0} → World → Option (List (Key × Row)) → Bundle → String → String → Outcome Report
verify_bundle {Row} w ledger bundle model repo = settle (steps w ledger bundle model repo)
