-- ===== src/Verifiers/Chutes.antt =====
-- verifiers/chutes.py: `_parse_quote` and `verify`. The answers of the service, the parsing of the
-- certificate, base64, the appraisal of the quote and the hash are arguments.
use Prim.Native.Nat.{◌%◌}
use awesome_private_inferenc.Prelude.{
  ℕ, ◌+◌, ◌*◌, String, ◌≡◌, ◌↔◌, refl, Bool, true, false, ◌&&◌, Option, none, some, List, [], ◌∷◌,
  ◌++◌, arith, ltb, nat_beq, if◌then◌else◌, length, ◌==◌, nat_eq, list_eq, string_eq, contains, map,
  ap, ◌⊎◌, inl, inr, Option-cases,
}
use awesome_private_inferenc.Prelude.Dict.{Dict, lookup, map_option}
use awesome_private_inferenc.Prelude.Text.{lower}
use awesome_private_inferenc.Verifiers.Hex.{Bytes, to_hex}
use awesome_private_inferenc.Verifiers.Bindings.{drop, slice, sha256_nonce_pubkey_binding}
use awesome_private_inferenc.Verifiers.Scores.{
  blank, as_dict, required_layers, has_required_check_coverage,
}
use awesome_private_inferenc.Verifiers.Reports.{
  AttestationReport, VerificationStatus, not_checked, rejected,
}

-- CHUTE_IDS
abbrev pub chute_ids : Dict String String
chute_ids =
    ("Qwen3-32B-TEE", "ac059e33-eb27-541c-b9a9-24b214036475")
    ∷ ("gemma-4-31B-TEE", "42ee92ba-a537-5a73-8741-876067750db7")
    ∷ ("GLM-5.1-TEE", "b048fe26-0352-5c46-acf7-335e527e7f3d")
    ∷ ("GLM-5.2-TEE", "08901219-159f-55a7-87cf-9d0d02744668")
    ∷ ("DeepSeek-V3.2-TEE", "398651e1-5f85-5e50-a513-7c5324e8e839")
    ∷ ("Kimi-K2.6-TEE", "aac09863-35b4-5d9b-9b67-6e6a9d54273a")
    ∷ []

-- what `_parse_quote` returns; `td_attributes` as its first byte would be read from the hex text
pub record Quote : Type 0 where
  pub td_attributes : Bytes
  pub mrtd : List ℕ
  pub report_data : List ℕ

-- `_parse_quote` on the decoded bytes; a short quote raises
unfoldable pub parse_quote : Bytes → Option Quote
parse_quote decoded =
    if ltb (length decoded) 632
    then none
    else let body = drop 48 decoded in
      some (record {
        td_attributes = slice 120 8 body;
        mrtd = map lower (to_hex (slice 136 48 body));
        report_data = to_hex (slice 520 64 body);
      })

-- `int(hex, 16)` of the attributes: the first byte is the most significant
unfoldable pub int_of : ℕ → Bytes → ℕ
int_of acc [] = acc
int_of acc (b ∷ bs) = int_of (acc * 256 + b) bs

-- The answers that `verify` gets, where each has the shape that it reads: the golden measurements (lower case), the instance and its key,
-- and the evidence, with the quote in base64 decoded.
pub record Answers : Type 0 where
  pub golden : List (List ℕ)
  pub instance_id : String
  pub e2e_pubkey : List ℕ
  pub quote : Option Bytes
  pub cert_spki : Option (List ℕ)

-- The requests: an exception that is caught, answers, or an answer of another shape, such as evidence
-- that is not an object, on which `verify` raises.
pub data Fetched : Type 0 where
  failed : String → Fetched
  answered : Answers → Fetched
  crashed : Fetched

-- The checks that `checked_ok` joins.
pub record Checks : Type 0 where
  pub tdx_verified : Bool
  pub report_data_binds_key : Bool
  pub cert_spki_bound : Bool
  pub debug_disabled : Bool
  pub mrtd_in_golden_set : Bool

abbrev pub checked_ok : Checks → Bool
checked_ok c =
    c.tdx_verified
    && (c.report_data_binds_key
        && (c.cert_spki_bound && (c.debug_disabled && c.mrtd_in_golden_set)))

unfoldable pub fail :
    String → String → Option VerificationStatus → Option String → AttestationReport
fail model error status reason = record {
  provider = "chutes";
  model = model;
  valid = false;
  attestation_type = "chutes-tee";
  signing_address = "";
  signing_public_key = "";
  scorecard = blank;
  verification_status = status;
  verification_reason = reason;
  error = some error;
}

unfoldable pub malformed : String → AttestationReport
malformed model =
    fail model "malformed quote or evidence certificate" (some rejected)
      (some "malformed quote or evidence certificate")

abbrev pub all_pass : Bool → Bool → Bool → Bool → Bool → Bool
all_pass tdx binds cert debug golden = tdx && (binds && (cert && (debug && golden)))

status_of_checks :
    (tdx binds cert debug golden : Bool)
    → let status : Option VerificationStatus = some (
        if tdx && ((tdx && binds) && (cert && (debug && golden))) then not_checked else rejected) in
      (all_pass tdx binds cert debug golden ≡ true → status ≡ some not_checked)
      × (all_pass tdx binds cert debug golden ≡ false → status ≡ some rejected)
      × (status ≡ some not_checked → all_pass tdx binds cert debug golden ≡ true)
status_of_checks true true cert debug golden = (λ h. rw h, λ h. rw h, λ h. ground arith)
status_of_checks true false cert debug golden = (λ h. cc, λ h. refl, λ h. cc)
status_of_checks false binds cert debug golden = (λ h. cc, λ h. refl, λ h. cc)

-- `appraise`: the verdict on a quote, or the exception of `verify_tdx_quote` where there is none
module _ (sha : List ℕ → List ℕ) (appraise : Bytes → Option Bool) where
  -- The checks on a parsed quote and certificate with the verdict on the quote. The binding counts
  -- only under an accepted quote.
  unfoldable pub checks : List ℕ → Answers → Bool → Quote → List ℕ → Checks
  checks nonce answers tdx quote spki = record {
    tdx_verified = tdx;
    report_data_binds_key =
        tdx && sha256_nonce_pubkey_binding sha quote.report_data nonce answers.e2e_pubkey;
    cert_spki_bound = slice 64 64 quote.report_data == spki;
    debug_disabled = nat_beq (int_of 0 quote.td_attributes % 2) 0;
    mrtd_in_golden_set = contains quote.mrtd answers.golden;
  }

  -- the report of `verify` once both parse
  unfoldable pub appraised : String → Answers → String → Checks → AttestationReport
  appraised model answers pubkey c = record {
    provider = "chutes";
    model = model;
    valid = false;
    attestation_type = "chutes-tee";
    signing_address = answers.instance_id;
    signing_public_key = pubkey;
    scorecard = record blank {
      nonce_bound = some c.report_data_binds_key;
      tdx_verified = some c.tdx_verified;
      report_data_binds_key = some c.report_data_binds_key;
      serving_code_attested = some false;
    };
    verification_status = some (if checked_ok c then not_checked else rejected);
    verification_reason = some (
        if checked_ok c
        then "serving code and selected model are not measured or verified"
        else "quote, key/certificate binding, debug flag, or golden MRTD check failed");
    error = none;
  }

  unfoldable pub appraise_quote :
      String → List ℕ → String → Answers → Bytes → List ℕ → Option Quote → Option AttestationReport
  appraise_quote model nonce pubkey answers bytes spki none = some (malformed model)
  appraise_quote model nonce pubkey answers bytes spki (some quote) =
      map_option (λ tdx. appraised model answers pubkey (checks nonce answers tdx quote spki))
        (appraise bytes)

  -- the two parses: either one that raises gives the malformed report
  unfoldable pub parsed :
      String → List ℕ → String → Answers → Option Bytes → Option (List ℕ) → Option AttestationReport
  parsed model nonce pubkey answers (some bytes) (some spki) =
      appraise_quote model nonce pubkey answers bytes spki (parse_quote bytes)
  parsed model nonce pubkey answers _ _ = some (malformed model)

  unfoldable pub fetched : String → List ℕ → String → Fetched → Option AttestationReport
  fetched model nonce pubkey (failed error) = some (fail model error none none)
  fetched model nonce pubkey (answered answers) =
      parsed model nonce pubkey answers answers.quote answers.cert_spki
  fetched model nonce pubkey crashed = none

  -- `verify`: `fetch` makes the requests for a chute with a nonce; `pubkey` is the text of the key;
  -- `none` where it raises
  unfoldable pub verify :
      (String → List ℕ → Fetched) → String → List ℕ → String → Option AttestationReport
  verify fetch model nonce pubkey = elim (lookup model chute_ids) [
    | none ↦ some (fail model "unknown chute_id" none none)
    | some chute_id ↦ fetched model nonce pubkey (fetch chute_id nonce)
  ]

  abbrev pub NeverAccepted : AttestationReport → Type 0
  NeverAccepted r =
      (r.valid ≡ false) × (has_required_check_coverage (as_dict r.scorecard) "chutes-tee" ≡ false)

  -- Why answers give no report.
  pub data Raises : Fetched → Type 0 where
    wrong_shape : Raises crashed
    no_verdict :
        {answers : Answers} {bytes : Bytes}
        → answers.quote ≡ some bytes
        → appraise bytes ≡ none
        → Raises (answered answers)

  fail-NeverAccepted :
      (model error : String) (status : Option VerificationStatus) (reason : Option String)
      → NeverAccepted (fail model error status reason)
  unfolding fail has_required_check_coverage required_layers lookup
  fail-NeverAccepted model error status reason = (refl, refl)

  appraised-NeverAccepted :
      (model pubkey : String) (answers : Answers) (c : Checks)
      → NeverAccepted (appraised model answers pubkey c)
  unfolding appraised has_required_check_coverage required_layers lookup
  appraised-NeverAccepted model pubkey answers c = (refl, ground arith)

  -- a run that raises for a reason, or reports without acceptance
  abbrev pub Ends : Type 0 → Option AttestationReport → Type 0
  Ends why o = ((o ≡ none) × why) ⊎ ((r : AttestationReport) × (o ≡ some r) × NeverAccepted r)

  malformed-Ends : (why : Type 0) (model : String) → Ends why (some (malformed model))
  unfolding malformed
  malformed-Ends why model = inr (malformed model, refl, fail-NeverAccepted model _ _ _)

  appraise_quote-Ends :
      (model pubkey : String) (nonce : List ℕ) (answers : Answers) (bytes : Bytes) (spki : List ℕ)
      (quote : Option Quote)
      → Ends (appraise bytes ≡ none) (appraise_quote model nonce pubkey answers bytes spki quote)
  unfolding appraise_quote
  appraise_quote-Ends model pubkey nonce answers bytes spki none = malformed-Ends _ model
  appraise_quote-Ends model pubkey nonce answers bytes spki (some quote) =
      elim (Option-cases (appraise bytes)) [
        | inl silent ↦ inl (rw silent refl, silent)
        | inr (tdx, said) ↦ inr (
          appraised model answers pubkey (checks nonce answers tdx quote spki),
          rw said refl,
          appraised-NeverAccepted model pubkey answers _,
        )
      ]

  parsed-Ends :
      (model pubkey : String) (nonce : List ℕ) (answers : Answers) (quote : Option Bytes)
      (spki : Option (List ℕ))
      → Ends
          ((bytes : Bytes) × (quote ≡ some bytes) × (appraise bytes ≡ none))
          (parsed model nonce pubkey answers quote spki)
  unfolding parsed
  parsed-Ends model pubkey nonce answers (some bytes) (some spki) =
      elim (appraise_quote-Ends model pubkey nonce answers bytes spki (parse_quote bytes)) [
        | inl (silent, why) ↦ inl (silent, (bytes, refl, why))
        | inr reported ↦ inr reported
      ]
  parsed-Ends model pubkey nonce answers (some bytes) none = malformed-Ends _ model
  parsed-Ends model pubkey nonce answers none spki = malformed-Ends _ model

  fetched-Ends :
      (model pubkey : String) (nonce : List ℕ) (f : Fetched)
      → Ends (Raises f) (fetched model nonce pubkey f)
  unfolding fetched
  fetched-Ends model pubkey nonce (failed error) =
      inr (fail model error none none, refl, fail-NeverAccepted model error none none)
  fetched-Ends model pubkey nonce (answered answers) =
      elim (parsed-Ends model pubkey nonce answers answers.quote answers.cert_spki) [
        | inl (silent, (bytes, given, why)) ↦ inl (silent, no_verdict given why)
        | inr reported ↦ inr reported
      ]
  fetched-Ends model pubkey nonce crashed = inl (refl, wrong_shape)

  -- Whatever the service answers, the chutes adapter raises or reports. It raises only for a known
  -- chute, on an answer of another shape or where the quote gets no verdict; and what it reports is
  -- not valid, with a scorecard that has no check coverage for its own shape.
  pub verify-never_accepts :
      (fetch : String → List ℕ → Fetched) (model : String) (nonce : List ℕ) (pubkey : String)
      → Ends
          ((id : String) × (lookup model chute_ids ≡ some id) × Raises (fetch id nonce))
          (verify fetch model nonce pubkey)
  unfolding verify
  verify-never_accepts fetch model nonce pubkey = by_id (lookup model chute_ids) refl
    where
      by_id :
          (o : Option String)
          → lookup model chute_ids ≡ o
          → Ends
              ((id : String) × (lookup model chute_ids ≡ some id) × Raises (fetch id nonce))
              (elim o [
                | none ↦ some (fail model "unknown chute_id" none none)
                | some chute_id ↦ fetched model nonce pubkey (fetch chute_id nonce)
              ])
      by_id none unknown =
          inr (fail model "unknown chute_id" none none, refl, fail-NeverAccepted model _ _ _)
      by_id (some id) known = elim (fetched-Ends model pubkey nonce (fetch id nonce)) [
        | inl (silent, why) ↦ inl (silent, (id, known, why))
        | inr reported ↦ inr reported
      ]

  -- On parsed evidence the status is `not_checked` if the quote is accepted, the report data binds
  -- the nonce and the key, the certificate's hash is in the report data, the debug test passes and
  -- the MRTD is a golden one, and `rejected` if any of these fails; and `not_checked` is reported
  -- only if all of them hold.
  pub appraised-status :
      (model pubkey : String) (answers : Answers) (nonce : List ℕ) (tdx : Bool) (quote : Quote)
      (spki : List ℕ)
      → let r = appraised model answers pubkey (checks nonce answers tdx quote spki) in
        let passed =
          all_pass tdx
            (sha256_nonce_pubkey_binding sha quote.report_data nonce answers.e2e_pubkey)
            (slice 64 64 quote.report_data == spki)
            (nat_beq (int_of 0 quote.td_attributes % 2) 0)
            (contains quote.mrtd answers.golden) in
        (passed ≡ true → r.verification_status ≡ some not_checked)
        × (passed ≡ false → r.verification_status ≡ some rejected)
        × (r.verification_status ≡ some not_checked → passed ≡ true)
  unfolding appraised checks
  appraised-status model pubkey answers nonce tdx quote spki =
      status_of_checks tdx
        (sha256_nonce_pubkey_binding sha quote.report_data nonce answers.e2e_pubkey)
        (slice 64 64 quote.report_data == spki) (nat_beq (int_of 0 quote.td_attributes % 2) 0)
        (contains quote.mrtd answers.golden)

int_of-last : (acc : ℕ) (bs : Bytes) (b : ℕ) → int_of acc (bs ++ b ∷ []) % 2 ≡ b % 2
unfolding int_of
int_of-last acc [] b = omega arith
int_of-last acc (c ∷ bs) b = int_of-last (acc * 256 + c) bs b

-- The debug test reads the last attribute byte alone: whatever the bytes before it are, the first
-- one, which holds the DEBUG flag of the little-endian attributes, included, the test passes exactly
-- when the last byte is even.
pub debug_disabled-last :
    (sha : List ℕ → List ℕ) (appraise : Bytes → Option Bool) (nonce : List ℕ) (answers : Answers)
    (tdx : Bool) (quote : Quote) (spki : List ℕ) (first : Bytes) (last : ℕ)
    → quote.td_attributes ≡ first ++ last ∷ []
    → ((checks sha appraise nonce answers tdx quote spki).debug_disabled ≡ true) ↔ (last % 2 ≡ 0)
unfolding checks
debug_disabled-last sha appraise nonce answers tdx quote spki first last e = (
  λ h. ground (arith, int_of-last 0 first last, ap (int_of 0) e),
  λ h. ground (arith, int_of-last 0 first last, ap (int_of 0) e),
)
