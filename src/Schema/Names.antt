-- ===== src/Schema/Names.antt =====
-- OUTCOMES and REASONS of probes/schema.py.
use awesome_private_inferenc.Prelude.{
  ℕ, String, ◌≡◌, ◌↔◌, Bool, true, false, Option, none, some, ◌==◌, string_eq, Eq, nat_beq, arith,
  if◌then◌else◌,
}

pub data Outcome : Type 0 where
  verified rejected not_checked unsupported unavailable stale not_applicable : Outcome

pub data Reason : Type 0 where
  adapter_accepted adapter_rejected missing_credentials transport_error http_error : Reason
  model_not_found evidence_missing missing_response probe_exception legacy_adapter_result : Reason
  legacy_missing not_in_catalog pending unspecified adapter_claim adapter_not_evaluated : Reason
  retired verification_incomplete : Reason

abbrev pub outcome_index : Outcome → ℕ
outcome_index verified = 0
outcome_index rejected = 1
outcome_index not_checked = 2
outcome_index unsupported = 3
outcome_index unavailable = 4
outcome_index stale = 5
outcome_index not_applicable = 6

abbrev pub outcome_beq : Outcome → Outcome → Bool
outcome_beq a b = nat_beq (outcome_index a) (outcome_index b)

pub outcome_beq_iff : (a b : Outcome) → (outcome_beq a b ≡ true) ↔ (a ≡ b)
outcome_beq_iff a b = (λ h. ground arith, λ h. ground (arith, h))

instance abbrev pub outcome_eq : Eq Outcome
outcome_eq = record { beq = outcome_beq; beq_iff = outcome_beq_iff }

abbrev pub outcome_name : Outcome → String
outcome_name verified = "verified"
outcome_name rejected = "rejected"
outcome_name not_checked = "not_checked"
outcome_name unsupported = "unsupported"
outcome_name unavailable = "unavailable"
outcome_name stale = "stale"
outcome_name not_applicable = "not_applicable"

-- `declared in OUTCOMES`
unfoldable pub outcome_named : String → Option Outcome
outcome_named s =
    if s == "verified"
    then some verified
    else if s == "rejected"
    then some rejected
    else if s == "not_checked"
    then some not_checked
    else if s == "unsupported"
    then some unsupported
    else if s == "unavailable"
    then some unavailable
    else if s == "stale"
    then some stale
    else if s == "not_applicable"
    then some not_applicable
    else none

abbrev pub is_retired : Reason → Bool
is_retired retired = true
is_retired _ = false

abbrev pub is_verified : Outcome → Bool
is_verified verified = true
is_verified _ = false

abbrev pub is_rejected : Outcome → Bool
is_rejected rejected = true
is_rejected _ = false
