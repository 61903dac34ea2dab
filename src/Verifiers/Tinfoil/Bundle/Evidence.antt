-- ===== src/Verifiers/Tinfoil/Bundle/Evidence.antt =====
-- verifiers/tinfoil.py: the reports of `verify_bundle` and the evidence behind them.
use awesome_private_inferenc.Prelude.{
  String, ◌≡◌, refl, ap, ◌∙◌, false, Option, none, some, List, nat_eq, list_eq, string_eq, ◌≢◌, ◌⊎◌,
  inl, inr,
}
use mathlib.Core.Path.{subst}
use awesome_private_inferenc.Prelude.Dict.{lookup}
use awesome_private_inferenc.Result.{ok, err, ok-injective}
use awesome_private_inferenc.Verifiers.Ledger.{Key}
use awesome_private_inferenc.Verifiers.Scores.{
  ScoreCard, as_dict, has_required_check_coverage, required_layers,
}
use awesome_private_inferenc.Verifiers.Reports.{rejected}
use awesome_private_inferenc.Verifiers.Tinfoil.World.{World}
use awesome_private_inferenc.Verifiers.Tinfoil.Sev.{SnpReport}
use awesome_private_inferenc.Verifiers.Tinfoil.Provenance.{Bundle, digest_audited}
use awesome_private_inferenc.Verifiers.Tinfoil.Bundle.{
  Report, raised, reported, Step, rejection, expected_tls_hash, unverified, steps, settle,
  verify_bundle,
}
use awesome_private_inferenc.Verifiers.Tinfoil.Bundle.Backed.{
  IsRejection, Ends, Ends-bind, Ends-run, Ends-ok, IsReleased, IsCertified, IsOpened, Unsigned,
  open_report-Ends, check_release-Ends, check_certificate-Ends, check_live-Ends,
}

-- The evidence for a bundle: a report without the debug bit that agrees with the signed release, with the
-- certificate, and with the key that the host presents.
pub record IsBacked (w : World) (bundle : Bundle) (repo : String) : Type 0 where
  pub report : SnpReport
  pub opened : IsOpened w bundle report
  pub released : IsReleased w bundle repo report
  pub certified : IsCertified w bundle report
  pub live : w.live_spki_sha256 bundle.domain ≡ some (expected_tls_hash report)

abbrev IsUnverified : World → Bundle → String → Report → Type 0
IsUnverified w bundle repo r =
    (r.valid ≡ false) × (r.scorecard.hardware_signature_verified ≡ none) × IsBacked w bundle repo

steps-Ends :
    {Row : Type 0} (w : World) (ledger : Option (List (Key × Row))) (bundle : Bundle)
    (model repo : String)
    → Ends (IsUnverified w bundle repo) (steps w ledger bundle model repo)
unfolding steps unverified
steps-Ends {Row} w ledger bundle model repo =
    Ends-bind (λ a. digest_audited ledger bundle.digest ≡ ok a) _ _ _ (Ends-run _)
      (λ audited a.
        Ends-bind (λ s. IsOpened w bundle s.report × Unsigned s) _ _ _
          (open_report-Ends w bundle model audited)
          (λ s b.
            Ends-bind (λ t. (t.report ≡ s.report) × IsReleased w bundle repo s.report × Unsigned t)
              _ _ _ (check_release-Ends w bundle model repo s b.1)
              (λ t c.
                Ends-bind
                  (λ u. (u.0.report ≡ t.report) × IsCertified w bundle t.report × Unsigned u.0) _ _
                  _ (check_certificate-Ends w bundle model t c.2)
                  (λ u d.
                    Ends-bind
                      (λ v.
                        (v.report ≡ u.0.report)
                        × (w.live_spki_sha256 bundle.domain ≡ some (expected_tls_hash u.0.report))
                        × Unsigned v)
                      _ _ _ (check_live-Ends w bundle model u.0 d.2)
                      (λ v e. Ends-ok (IsUnverified w bundle repo) _ (
                        refl,
                        e.2,
                        record {
                          report = s.report;
                          opened = b.0;
                          released = c.1;
                          certified = subst (IsCertified w bundle) c.0 d.1;
                          live =
                              e.1 ∙ ap (λ (r : SnpReport). some (expected_tls_hash r)) (d.0 ∙ c.0);
                        },
                      ))))))

settle-Ends :
    (w : World) (bundle : Bundle) (repo : String) (s : Step Report) (r : Report)
    → Ends (IsUnverified w bundle repo) s
    → settle s ≡ ok r
    → IsRejection r ⊎ IsUnverified w bundle repo r
unfolding Ends
settle-Ends w bundle repo (ok a) r h e = inr (subst (IsUnverified w bundle repo) (ok-injective e) h)
settle-Ends w bundle repo (err (reported a)) r h e = inl (subst IsRejection (ok-injective e) h)
settle-Ends w bundle repo (err (raised x)) r h e = cc

verify_bundle-Ends :
    {Row : Type 0} (w : World) (ledger : Option (List (Key × Row))) (bundle : Bundle)
    (model repo : String) (r : Report)
    → verify_bundle w ledger bundle model repo ≡ ok r
    → IsRejection r ⊎ IsUnverified w bundle repo r
unfolding verify_bundle
verify_bundle-Ends {Row} w ledger bundle model repo r h =
    settle-Ends w bundle repo (steps w ledger bundle model repo) r
      (steps-Ends w ledger bundle model repo) h

-- A report of `verify_bundle` that is not rejected rests on the whole evidence: an SEV-SNP report without
-- the debug bit, whose measurement is the one in a release signed for the repository, whose report data
-- holds the digest of the key of the certificate and of the live connection and the HPKE key that the
-- certificate's names carry, and the names also carry the hash of the document.
pub verify_bundle-IsBacked :
    {Row : Type 0} (w : World) (ledger : Option (List (Key × Row))) (bundle : Bundle)
    (model repo : String) (r : Report)
    → verify_bundle w ledger bundle model repo ≡ ok r
    → (r.details.status ≢ rejected)
    → IsBacked w bundle repo
verify_bundle-IsBacked {Row} w ledger bundle model repo r h accepted =
    elim (verify_bundle-Ends w ledger bundle model repo r h) [
      | inl rejection ↦ absurd (accepted rejection.status)
      | inr unverified ↦ unverified.2
    ]

uncovered :
    (s : ScoreCard)
    → s.hardware_signature_verified ≡ none
    → has_required_check_coverage (as_dict s) "tinfoil-sev-snp-v2" ≡ false
unfolding has_required_check_coverage required_layers lookup
uncovered s h = rw h refl

-- `verify_bundle` never vouches for a bundle: each report is marked not valid and has no check coverage.
pub verify_bundle-never_valid :
    {Row : Type 0} (w : World) (ledger : Option (List (Key × Row))) (bundle : Bundle)
    (model repo : String) (r : Report)
    → verify_bundle w ledger bundle model repo ≡ ok r
    → (r.valid ≡ false)
      × (has_required_check_coverage (as_dict r.scorecard) "tinfoil-sev-snp-v2" ≡ false)
verify_bundle-never_valid {Row} w ledger bundle model repo r h =
    elim (verify_bundle-Ends w ledger bundle model repo r h) [
      | inl rejection ↦ (rejection.invalid, uncovered r.scorecard rejection.unsigned)
      | inr unverified ↦ (unverified.0, uncovered r.scorecard unverified.1)
    ]
