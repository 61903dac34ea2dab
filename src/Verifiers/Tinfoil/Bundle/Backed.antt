-- ===== src/Verifiers/Tinfoil/Bundle/Backed.antt =====
-- verifiers/tinfoil.py: what a report of `verify_bundle` rests on.
use awesome_private_inferenc.Prelude.{
  ℕ, String, ◌≡◌, refl, ap, ◌∙◌, Bool, true, false, not, Option, none, some, List, ◌==◌, nat_eq,
  list_eq, list_beq_iff, string_eq,
}
use awesome_private_inferenc.Prelude.Text.{codes}
use awesome_private_inferenc.Json.{Json, null, bool, num, str, arr, obj}
use awesome_private_inferenc.Result.{Result, ok, err, ◌>>=◌, present}
use awesome_private_inferenc.Verifiers.Hex.{Bytes, to_hex}
use awesome_private_inferenc.Verifiers.Scores.{ScoreCard}
use awesome_private_inferenc.Verifiers.Reports.{rejected}
use awesome_private_inferenc.Verifiers.Tinfoil.World.{
  World, invalid_certificate, invalid_utf8, no_connection,
}
use awesome_private_inferenc.Verifiers.Tinfoil.Sev.{SnpReport}
use awesome_private_inferenc.Verifiers.Tinfoil.Config.{
  Outcome, ConfigAudit, as_object, audit_attested_config,
}
use awesome_private_inferenc.Verifiers.Tinfoil.Config.Committed.{present-eq-ok}
use awesome_private_inferenc.Verifiers.Tinfoil.Dcode.{decode_dcode}
use awesome_private_inferenc.Verifiers.Tinfoil.Provenance.{
  Bundle, verify_sigstore, extract_snp_measurement,
}
use awesome_private_inferenc.Verifiers.Tinfoil.Bundle.{
  Message, Details, Report, raised, reported, Step, run, rejection, check, SevError, State, is_hex,
  hpke_key, value_or_os_error, other_error, expected_tls_hash, san_strings, att_doc_hash,
  sev_report, caught_report, open_report, check_release, check_certificate, check_live,
}

-- A report that says so is a rejection: it is not valid and claims no hardware signature.
pub record IsRejection (r : Report) : Type 0 where
  pub status : r.details.status ≡ rejected
  pub invalid : r.valid ≡ false
  pub unsigned : r.scorecard.hardware_signature_verified ≡ none

-- What holds of the value of a step, if it has one, where the reports among the others are rejections.
unfoldable pub Ends : {A : Type 0} → (A → Type 0) → Step A → Type 0
Ends P (ok a) = P a
Ends P (err (raised e)) = Unit
Ends P (err (reported r)) = IsRejection r

pub Ends-bind :
    {A B : Type 0} (P : A → Type 0) (Q : B → Type 0) (s : Step A) (next : A → Step B)
    → Ends P s
    → ((a : A) → P a → Ends Q (next a))
    → Ends Q (s >>= next)
unfolding Ends
Ends-bind P Q (ok a) next h k = k a h
Ends-bind P Q (err (raised e)) next h k = h
Ends-bind P Q (err (reported r)) next h k = h

pub Ends-ok : {A : Type 0} (P : A → Type 0) (a : A) → P a → Ends P (ok a)
unfolding Ends
Ends-ok P a h = h

pub Ends-run : {A : Type 0} (o : Outcome A) → Ends (λ a. o ≡ ok a) (run o)
unfolding Ends
Ends-run (ok a) = refl
Ends-run (err e) = tt

Ends-check :
    (test : Bool) (model : String) (message : Message) (details : Details) (scorecard : ScoreCard)
    → scorecard.hardware_signature_verified ≡ none
    → Ends (λ _. test ≡ true) (check test model message details scorecard)
unfolding Ends rejection
Ends-check true model message details scorecard h = refl
Ends-check false model message details scorecard h = record {
  status = refl;
  invalid = refl;
  unsigned = h;
}

Ends-caught :
    (model : String) (details : Details) (scorecard : ScoreCard) (o : Result SevError SnpReport)
    → scorecard.hardware_signature_verified ≡ none
    → Ends (λ r. o ≡ ok r) (caught_report model details scorecard o)
unfolding Ends caught_report rejection
Ends-caught model details scorecard (ok r) h = refl
Ends-caught model details scorecard (err value_or_os_error) h = record {
  status = refl;
  invalid = refl;
  unsigned = h;
}
Ends-caught model details scorecard (err other_error) h = tt

-- The release that a report agrees with: signed for the repository, stating the report's measurement, and
-- with a configuration that was audited.
pub record IsReleased (w : World) (bundle : Bundle) (repo : String) (r : SnpReport) : Type 0 where
  pub predicate : Json
  pub predicate_type : Json
  pub signed : verify_sigstore w bundle repo ≡ ok (predicate, predicate_type)
  pub measurement : String
  pub is_measurement : extract_snp_measurement predicate predicate_type ≡ ok (str measurement)
  pub measured : codes measurement ≡ to_hex r.measurement
  pub audit : ConfigAudit
  pub audited : (as_object predicate >>= audit_attested_config w) ≡ ok audit

-- The certificate that a report agrees with: its key is the one in the first half of the report data, and
-- its names carry the second half and the hash of the document.
pub record IsCertified (w : World) (bundle : Bundle) (r : SnpReport) : Type 0 where
  pub sans : List (Option (List ℕ))
  pub hpke : Bytes
  pub hatt : Bytes
  pub is_sans : w.san_values (codes bundle.enclave_cert_pem) ≡ some sans
  pub is_spki : w.spki_sha256 (codes bundle.enclave_cert_pem) ≡ some (expected_tls_hash r)
  pub carries_key : decode_dcode w.b32decode (san_strings sans) (codes "hpke") ≡ ok hpke
  pub is_key : to_hex hpke ≡ to_hex (hpke_key r)
  pub carries_hash : decode_dcode w.b32decode (san_strings sans) (codes "hatt") ≡ ok hatt
  pub is_hash : w.decode_utf8 hatt ≡ some (att_doc_hash w bundle)

abbrev pub Unsigned : State → Type 0
Unsigned s = s.scorecard.hardware_signature_verified ≡ none

abbrev pub IsOpened : World → Bundle → SnpReport → Type 0
IsOpened w bundle r = (sev_report w bundle ≡ ok r) × (r.debug ≡ false)

pub open_report-Ends :
    (w : World) (bundle : Bundle) (model : String) (audited : Option Bool)
    → Ends (λ s. IsOpened w bundle s.report × Unsigned s) (open_report w bundle model audited)
unfolding open_report
open_report-Ends w bundle model audited =
    Ends-bind (λ r. sev_report w bundle ≡ ok r) _ _ _
      (Ends-caught model _ _ (sev_report w bundle) refl)
      (λ r opened.
        Ends-bind (λ _. not r.debug ≡ true) _ _ _ (Ends-check (not r.debug) model _ _ _ refl)
          (λ u set.
            let done : IsOpened w bundle r × ◌≡◌ {A = Option Bool} none none =
              ((opened, flipped r.debug set), refl) in
            Ends-ok _ _ done))
  where
    flipped : (b : Bool) → not b ≡ true → b ≡ false
    flipped true h = cc
    flipped false h = refl

pub check_release-Ends :
    (w : World) (bundle : Bundle) (model repo : String) (s : State)
    → Unsigned s
    → Ends
        (λ t. (t.report ≡ s.report) × IsReleased w bundle repo s.report × Unsigned t)
        (check_release w bundle model repo s)
unfolding check_release
check_release-Ends w bundle model repo s h =
    Ends-bind (λ release. verify_sigstore w bundle repo ≡ ok release) _ _ _ (Ends-run _)
      (λ release signed.
        Ends-bind (λ m. extract_snp_measurement release.0 release.1 ≡ ok m) _ _ _ (Ends-run _)
          (λ m stated.
            Ends-bind (λ _. is_hex (to_hex s.report.measurement) m ≡ true) _ _ _
              (Ends-check (is_hex (to_hex s.report.measurement) m) model _ _ _ h)
              (λ u measured.
                Ends-bind (λ a. (as_object release.0 >>= audit_attested_config w) ≡ ok a) _ _ _
                  (Ends-run _)
                  (λ audit audited.
                    let (measurement, is_text, same) =
                      is_hex-eq (to_hex s.report.measurement) m measured in
                    let done : (s.report ≡ s.report)
                        × IsReleased w bundle repo s.report
                        × Unsigned s =
                      (
                        refl,
                        record {
                          predicate = release.0;
                          predicate_type = release.1;
                          signed = signed;
                          measurement = measurement;
                          is_measurement = stated ∙ ap ok is_text;
                          measured = same;
                          audit = audit;
                          audited = audited;
                        },
                        h,
                      ) in
                    Ends-ok _ _ done))))
  where
    is_hex-eq :
        (hex : List ℕ) (m : Json)
        → is_hex hex m ≡ true
        → (t : String) × (m ≡ str t) × (codes t ≡ hex)
    is_hex-eq hex (str t) e = (t, refl, (list_beq_iff nat_eq _ _).0 e)
    is_hex-eq hex null e = cc
    is_hex-eq hex (bool b) e = cc
    is_hex-eq hex (num n) e = cc
    is_hex-eq hex (arr items) e = cc
    is_hex-eq hex (obj fields) e = cc

pub check_certificate-Ends :
    (w : World) (bundle : Bundle) (model : String) (s : State)
    → Unsigned s
    → Ends
        (λ t. (t.0.report ≡ s.report) × IsCertified w bundle s.report × Unsigned t.0)
        (check_certificate w bundle model s)
unfolding check_certificate
check_certificate-Ends w bundle model s h =
    Ends-bind
      (λ v. present invalid_certificate (w.san_values (codes bundle.enclave_cert_pem)) ≡ ok v) _ _ _
      (Ends-run _)
      (λ sans a.
        Ends-bind
          (λ v. present invalid_certificate (w.spki_sha256 (codes bundle.enclave_cert_pem)) ≡ ok v)
          _ _ _ (Ends-run _)
          (λ spki b.
            Ends-bind (λ _. (spki == expected_tls_hash s.report) ≡ true) _ _ _
              (Ends-check _ model _ _ _ h)
              (λ u c.
                Ends-bind (λ v. decode_dcode w.b32decode (san_strings sans) (codes "hpke") ≡ ok v) _
                  _ _ (Ends-run _)
                  (λ hpke d.
                    Ends-bind (λ _. (to_hex hpke == to_hex (hpke_key s.report)) ≡ true) _ _ _
                      (Ends-check _ model _ _ _ h)
                      (λ v e.
                        Ends-bind
                          (λ v. decode_dcode w.b32decode (san_strings sans) (codes "hatt") ≡ ok v) _
                          _ _ (Ends-run _)
                          (λ hatt f.
                            Ends-bind (λ v. present invalid_utf8 (w.decode_utf8 hatt) ≡ ok v) _ _ _
                              (Ends-run _)
                              (λ text g.
                                Ends-bind (λ _. (text == att_doc_hash w bundle) ≡ true) _ _ _
                                  (Ends-check _ model _ _ _ h)
                                  (λ x k.
                                    let done : (s.report ≡ s.report)
                                        × IsCertified w bundle s.report
                                        × Unsigned s =
                                      (
                                        refl,
                                        record {
                                          sans = sans;
                                          hpke = hpke;
                                          hatt = hatt;
                                          is_sans = present-eq-ok invalid_certificate _ a;
                                          is_spki =
                                              present-eq-ok invalid_certificate _ b
                                              ∙ ap some ((list_beq_iff nat_eq _ _).0 c);
                                          carries_key = d;
                                          is_key = (list_beq_iff nat_eq _ _).0 e;
                                          carries_hash = f;
                                          is_hash =
                                              present-eq-ok invalid_utf8 _ g
                                              ∙ ap some ((list_beq_iff nat_eq _ _).0 k);
                                        },
                                        h,
                                      ) in
                                    Ends-ok _ _ done))))))))

pub check_live-Ends :
    (w : World) (bundle : Bundle) (model : String) (s : State)
    → Unsigned s
    → Ends
        (λ t.
          (t.report ≡ s.report)
          × (w.live_spki_sha256 bundle.domain ≡ some (expected_tls_hash s.report))
          × Unsigned t)
        (check_live w bundle model s)
unfolding check_live
check_live-Ends w bundle model s h =
    Ends-bind (λ v. present no_connection (w.live_spki_sha256 bundle.domain) ≡ ok v) _ _ _
      (Ends-run _)
      (λ live a.
        Ends-bind (λ _. (live == expected_tls_hash s.report) ≡ true) _ _ _
          (Ends-check _ model _ _ _ h)
          (λ u b.
            let done : (s.report ≡ s.report)
                × (w.live_spki_sha256 bundle.domain ≡ some (expected_tls_hash s.report))
                × Unsigned s =
              (
                refl,
                present-eq-ok no_connection _ a ∙ ap some ((list_beq_iff nat_eq _ _).0 b),
                h,
              ) in
            Ends-ok _ _ done))
