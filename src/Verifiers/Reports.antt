-- ===== src/Verifiers/Reports.antt =====
-- verifiers/common.py: `AttestationReport`, less its clocks. Of `details` it keeps the fields that
-- decide how the report is read, `verification_status` and `verification_reason`.
use awesome_private_inferenc.Prelude.{String, Bool, Option}
use awesome_private_inferenc.Verifiers.Scores.{ScoreCard}

pub data VerificationStatus : Type 0 where
  not_checked rejected : VerificationStatus

pub record AttestationReport : Type 0 where
  pub provider : String
  pub model : String
  pub valid : Bool
  pub attestation_type : String
  pub signing_address : String
  pub signing_public_key : String
  pub scorecard : ScoreCard
  pub verification_status : Option VerificationStatus
  pub verification_reason : Option String
  pub error : Option String
