-- ===== src/Verifiers/Tinfoil/Bundle/Errors.antt =====
-- verifiers/tinfoil.py: bundles whose report cannot be read.
use awesome_private_inferenc.Prelude.{
  String, ◌≡◌, refl, Bool, Option, some, List, string_eq, eq_iff,
}
use awesome_private_inferenc.Prelude.Text.{codes}
use awesome_private_inferenc.Result.{ok, err}
use awesome_private_inferenc.Verifiers.Ledger.{Key}
use awesome_private_inferenc.Verifiers.Hex.{Bytes}
use awesome_private_inferenc.Verifiers.Tinfoil.World.{World, eof_or_zlib_error, truncated_gzip}
use awesome_private_inferenc.Verifiers.Tinfoil.Provenance.{Bundle, digest_audited, predicate_sev_v2}
use awesome_private_inferenc.Verifiers.Tinfoil.Bundle.{
  malformed_report, rejection, start_scorecard, start_details, value_or_os_error, sev_report,
  caught_report, open_report, steps, verify_bundle,
}

-- A report in another format, not in Base64, not a gzip file, or of another length is rejected: the result
-- is a report with the message for that and a scorecard on which no check was made.
pub verify_bundle-malformed :
    {Row : Type 0} (w : World) (ledger : Option (List (Key × Row))) (bundle : Bundle)
    (model repo : String) (audited : Option Bool)
    → digest_audited ledger bundle.digest ≡ ok audited
    → sev_report w bundle ≡ err value_or_os_error
    → verify_bundle w ledger bundle model repo
      ≡ ok (rejection model malformed_report (start_details audited) start_scorecard)
unfolding verify_bundle steps open_report caught_report
verify_bundle-malformed {Row} w ledger bundle model repo audited a h = rw (a, h) refl

-- A body on which gzip raises `EOFError` or `zlib.error` is not rejected: these are neither of the caught
-- exceptions, and leave `verify_bundle`.
pub verify_bundle-truncated :
    {Row : Type 0} (w : World) (ledger : Option (List (Key × Row))) (bundle : Bundle)
    (model repo : String) (audited : Option Bool) (zipped : Bytes)
    → digest_audited ledger bundle.digest ≡ ok audited
    → bundle.report_format ≡ predicate_sev_v2
    → w.b64decode (codes bundle.report_body_b64) ≡ some zipped
    → w.gunzip zipped ≡ err eof_or_zlib_error
    → verify_bundle w ledger bundle model repo ≡ err truncated_gzip
unfolding verify_bundle steps open_report caught_report sev_report
verify_bundle-truncated {Row} w ledger bundle model repo audited zipped a format decoded cut =
    rw (a, (eq_iff bundle.report_format predicate_sev_v2).1 format, decoded, cut) refl
