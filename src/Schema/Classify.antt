-- ===== src/Schema/Classify.antt =====
-- `classify_report` and `normalize_checks` of probes/schema.py. `str` of a value that is not a text is an
-- argument.
use awesome_private_inferenc.Prelude.{
  ℕ, String, ◌≡◌, ◌≢◌, ◌↔◌, ◌⊎◌, inl, inr, refl, Bool, true, false, ◌&&◌, ◌||◌, not, Option, none,
  some, List, ◌==◌, string_eq, arith, if◌then◌else◌, eq_iff,
}
use awesome_private_inferenc.Prelude.Dict.{Dict, lookup, map_values, map_option, lookup-map_values}
use awesome_private_inferenc.Json.{Json, str, bool, null, num, arr, obj, truthy, is_true, is_false}
use awesome_private_inferenc.Schema.Names.{
  Outcome, verified, rejected, not_checked, unsupported, unavailable, Reason, adapter_accepted,
  adapter_rejected, missing_credentials, transport_error, http_error, model_not_found,
  evidence_missing, probe_exception, legacy_adapter_result, unspecified, adapter_claim,
  adapter_not_evaluated, verification_incomplete, outcome_named,
}
use awesome_private_inferenc.Schema.Reports.{Report, details_of, text_of, has_text, lowered}

abbrev pub truthy_field : Option Json → Bool
truthy_field none = false
truthy_field (some v) = truthy v

abbrev pub is_true_field : Option Json → Bool
is_true_field none = false
is_true_field (some v) = is_true v

abbrev pub is_false_field : Option Json → Bool
is_false_field none = false
is_false_field (some v) = is_false v

-- `declared if declared in OUTCOMES`
abbrev pub declared_outcome : Option Json → Option Outcome
declared_outcome (some (str s)) = outcome_named s
declared_outcome _ = none

-- the reason that goes with a declared outcome
abbrev pub declared_reason : Outcome → Reason
declared_reason not_checked = verification_incomplete
declared_reason unsupported = verification_incomplete
declared_reason _ = unspecified

-- the `if error:` block
unfoldable pub classify_error : String → List ℕ → Outcome × Reason
classify_error kind low =
    if kind == "error" && not (has_text "http" low || has_text "timeout" low)
    then (unavailable, probe_exception)
    else if has_text "http" low
        && not (
            has_text "502" low
            || (has_text "503" low || (has_text "504" low || has_text "429" low)))
    then (unavailable, http_error)
    else (unavailable, transport_error)

-- the tests on the kind, the error and the `valid` flag
unfoldable pub classify_text : String → String → List ℕ → Option Json → Outcome × Reason
classify_text kind error low valid =
    if kind == "skipped" || has_text "not set" low
    then (not_checked, missing_credentials)
    else if has_text "model" low && (has_text "not found" low || has_text "invalid model" low)
    then (unavailable, model_not_found)
    else if has_text "no tee attestation" low || has_text "no attestation" low
    then (unavailable, evidence_missing)
    else if not (error == "")
    then classify_error kind low
    else if is_true_field valid
    then (verified, adapter_accepted)
    else if is_false_field valid
    then (rejected, adapter_rejected)
    else (not_checked, unspecified)

-- `str(report.get("error") or "")`
abbrev pub error_of : (Json → String) → Option Json → String
error_of show none = ""
error_of show (some (str s)) = s
error_of show (some v) = if truthy v then show v else ""

abbrev classify_declared : (Json → String) → Report → Option Outcome → Outcome × Reason
classify_declared show report (some outcome) = (outcome, declared_reason outcome)
classify_declared show report none =
    let error = error_of show (lookup "error" report) in
    classify_text (text_of (lookup "attestation_type" report)) error (lowered error)
      (lookup "valid" report)

-- `classify_report`, with the flag `legacy` first
unfoldable pub classify_report : (Json → String) → Bool → Report → Outcome × Reason
classify_report show true report =
    (if truthy_field (lookup "valid" report) then verified else rejected, legacy_adapter_result)
classify_report show false report =
    classify_declared show report
      (declared_outcome (lookup "verification_status" (details_of report)))

-- One cell of `normalize_checks`.
unfoldable pub normalize_check : Json → Outcome × Reason
normalize_check (bool true) = (verified, adapter_claim)
normalize_check (bool false) = (rejected, adapter_claim)
normalize_check null = (not_checked, adapter_not_evaluated)
normalize_check (str s) =
    if s == "audit_pending"
    then (not_checked, adapter_not_evaluated)
    else (unsupported, unspecified)
normalize_check _ = (unsupported, unspecified)

unfoldable pub normalize_checks : Dict String Json → Dict String (Outcome × Reason)
normalize_checks = map_values normalize_check

classify_error-unavailable :
    (kind : String) (low : List ℕ) → (classify_error kind low).0 ≡ unavailable
unfolding classify_error
classify_error-unavailable kind low = ground arith

classify_text-verified :
    (kind error : String) (low : List ℕ) (valid : Option Json)
    → (classify_text kind error low valid).0 ≡ verified
    → (is_true_field valid ≡ true)
      × (error ≡ "")
      × ((classify_text kind error low valid).1 ≡ adapter_accepted)
unfolding classify_text
classify_text-verified kind error low valid h =
    ground (arith, classify_error-unavailable kind low, eq_iff error "")

-- What a report that is classified as verified says, by the flag `legacy`.
abbrev pub IsClaimed : (Json → String) → Bool → Report → Type 0
IsClaimed show true report = truthy_field (lookup "valid" report) ≡ true
IsClaimed show false report =
    (declared_outcome (lookup "verification_status" (details_of report)) ≡ some verified)
    ⊎ ((declared_outcome (lookup "verification_status" (details_of report)) ≡ none)
        × (is_true_field (lookup "valid" report) ≡ true)
        × (truthy_field (lookup "error" report) ≡ false))

-- `str` of a value that counts as true has a text.
abbrev pub IsShown : (Json → String) → Type 0
IsShown show = (v : Json) → truthy v ≡ true → show v ≢ ""

shown_or_empty :
    (there : Bool) (text : String)
    → (there ≡ true → text ≢ "")
    → (if there then text else "") ≡ ""
    → there ≡ false
shown_or_empty true text shown h = absurd (shown refl h)
shown_or_empty false text shown h = refl

no_error :
    (show : Json → String) (error : Option Json)
    → IsShown show
    → error_of show error ≡ ""
    → truthy_field error ≡ false
no_error show none shown h = refl
no_error show (some (str s)) shown h = ground (arith, eq_iff s "")
no_error show (some null) shown h = refl
no_error show (some (bool b)) shown h = shown_or_empty b _ (shown (bool b)) h
no_error show (some (num n)) shown h = shown_or_empty (truthy (num n)) _ (shown (num n)) h
no_error show (some (arr xs)) shown h = shown_or_empty (truthy (arr xs)) _ (shown (arr xs)) h
no_error show (some (obj fs)) shown h = shown_or_empty (truthy (obj fs)) _ (shown (obj fs)) h

verified_by :
    (show : Json → String) (report : Report) (declared : Option Outcome)
    → IsShown show
    → (classify_declared show report declared).0 ≡ verified
    → (declared ≡ some verified)
      ⊎ ((declared ≡ none)
          × (is_true_field (lookup "valid" report) ≡ true)
          × (truthy_field (lookup "error" report) ≡ false))
verified_by show report (some outcome) shown h = inl (ground arith)
verified_by show report none shown h =
    let error = error_of show (lookup "error" report) in
    let (valid, clean, _) =
      classify_text-verified (text_of (lookup "attestation_type" report)) error (lowered error)
        (lookup "valid" report) h in
    inr (refl, valid, no_error show (lookup "error" report) shown clean)

truthy_verified :
    (b : Bool) → ◌≡◌ {A = Outcome} (if b then verified else rejected) verified → b ≡ true
truthy_verified true h = refl
truthy_verified false h = cc

-- A report that is not a legacy one is classified as verified only in two ways: the adapter declared the
-- status "verified", or it declared no known status, its `valid` is the Boolean true (not another true
-- value), and its error is missing or counts as false. A legacy report is classified as verified only
-- where its `valid` counts as true. The text of a value that counts as true is not empty.
pub classify_report-verified :
    (show : Json → String) (legacy : Bool) (report : Report)
    → IsShown show
    → (classify_report show legacy report).0 ≡ verified
    → IsClaimed show legacy report
unfolding classify_report
classify_report-verified show true report shown h = truthy_verified _ h
classify_report-verified show false report shown h = verified_by show report _ shown h

-- Normalising keeps the cells' names, and a cell counts as verified exactly when the adapter's
-- value is the Boolean true, and as rejected exactly when it is the Boolean false.
pub normalize_checks-cells :
    (scorecard : Dict String Json) (name : String)
    → (lookup name (normalize_checks scorecard)
        ≡ map_option normalize_check (lookup name scorecard))
      × ((value : Json) → ((normalize_check value).0 ≡ verified) ↔ (value ≡ bool true))
      × ((value : Json) → ((normalize_check value).0 ≡ rejected) ↔ (value ≡ bool false))
unfolding normalize_checks normalize_check
normalize_checks-cells scorecard name = (
  lookup-map_values normalize_check name scorecard,
  λ value. (λ h. ground arith, λ h. rw h refl),
  λ value. (λ h. ground arith, λ h. rw h refl),
)
