-- ===== src/Verifiers/Venice.antt =====
-- verifiers/venice.py: `verify`. The request, the appraisal of the quote, the address of a key, the
-- hash, `json.loads` and the GPU attestation are an argument, `World`.
pub mod Fresh
use awesome_private_inferenc.Prelude.{
  ℕ, String, ◌≡◌, refl, Bool, true, false, ◌&&◌, ◌||◌, not, Option, none, some, List, [], ◌∷◌, ◌++◌,
  arith, ◌==◌, nat_eq, list_eq, string_eq, map, if◌then◌else◌, is_some, nat_beq,
}
use awesome_private_inferenc.Prelude.Dict.{Dict, lookup, map_option}
use awesome_private_inferenc.Prelude.Text.{codes, lower, is_prefix}
use awesome_private_inferenc.Json.{Json, Fields, null, bool, num, str, arr, obj, truthy}
use awesome_private_inferenc.Schema.Reports.{entries, object_of}
use awesome_private_inferenc.Verifiers.Bindings.{phala_report_data_binds_addr_nonce}
use awesome_private_inferenc.Verifiers.Scores.{ScoreCard, blank}
use awesome_private_inferenc.Verifiers.Reports.{AttestationReport}

pub record QuoteAppraisal : Type 0 where
  pub verified : Bool
  pub reportdata : Option (List ℕ)
  pub mrconfig : Option (List ℕ)

-- `requests.get`: an exception, or a status with a JSON body
pub data Response : Type 0 where
  transport : String → Response
  status : ℕ → Dict String Json → Response

pub record World : Type 0 where
  pub appraise : Json → QuoteAppraisal
  pub keccak_eth_address : List ℕ → Option (List ℕ)
  pub sha256_hex : List ℕ → List ℕ
  pub loads : String → Option Json
  pub attest_gpu : Json → Option Json

-- `a or b`, where a missing field is none and what is not truthy counts as missing
abbrev pub present_value : Option Json → Option Json
present_value none = none
present_value (some v) = if truthy v then some v else none

abbrev pub or_else : Option Json → Option Json → Option Json
or_else none b = b
or_else (some v) b = some v

abbrev pub either : Option Json → Option Json → Option Json
either a b = or_else (present_value a) (present_value b)

-- an object in place of the hex text
abbrev inner_quote : Option Json → Option Json
inner_quote (some (obj fields)) =
    either (lookup "hex" (entries fields)) (lookup "intel_quote" (entries fields))
inner_quote other = other

-- `quote_hex`
unfoldable pub quote_hex : Dict String Json → Option Json
quote_hex att = inner_quote (either (lookup "intel_quote" att) (lookup "quote" att))

-- `att.get(name, "")` of a text
abbrev text_codes : Option Json → List ℕ
text_codes (some (str s)) = codes s
text_codes _ = []

abbrev pub nonempty : List ℕ → Bool
nonempty [] = false
nonempty (_ ∷ _) = true

abbrev pub or_empty : Option (List ℕ) → List ℕ
or_empty none = []
or_empty (some text) = text

abbrev is_client : Option Json → Bool
is_client (some (str s)) = s == "client"
is_client _ = false

-- `verdict in ("PASS", True)`
abbrev pub passes : Option Json → Bool
passes (some (str s)) = s == "PASS"
passes (some (bool b)) = b
passes (some (num n)) = nat_beq n 1
passes _ = false

abbrev same_address : Option (List ℕ) → List ℕ → Bool
same_address (some derived) address = map lower derived == map lower address
same_address none address = false

abbrev pub signing_address : Dict String Json → List ℕ
signing_address att = text_codes (lookup "signing_address" att)

-- `spk`, if it counts as true
abbrev pub signing_public_key : Dict String Json → Option Json
signing_public_key att = present_value (lookup "signing_public_key" att)

-- `all(required)`: a check that is required counts if it is true
abbrev pub counts : Option Bool → Bool
counts none = false
counts (some b) = b

unfoldable pub failure : String → String → AttestationReport
failure model error = record {
  provider = "venice";
  model = model;
  valid = false;
  attestation_type = "venice";
  signing_address = "";
  signing_public_key = "";
  scorecard = blank;
  verification_status = none;
  verification_reason = none;
  error = some error;
}

abbrev pub nvidia_payload : Dict String Json → Option Json
nvidia_payload att = present_value (lookup "nvidia_payload" att)

module _ (w : World) where
  unfoldable pub binds_key : Dict String Json → Json → List ℕ → Bool
  binds_key att quote nonce =
      phala_report_data_binds_addr_nonce (or_empty (w.appraise quote).reportdata)
        (signing_address att) nonce

  -- `keccak_eth_address(spk)`; for a key that is not a text it raises
  abbrev pub address_of : Option Json → Option (List ℕ)
  address_of (some (str s)) = w.keccak_eth_address (codes s)
  address_of _ = none

  -- `sc.key_derives_to_address`
  unfoldable pub key_derives : Dict String Json → Option Bool
  key_derives att =
      if is_some (signing_public_key att) && nonempty (signing_address att)
      then some (same_address (address_of (signing_public_key att)) (signing_address att))
      else none

  abbrev parsed_tcb : Option Json → Dict String Json
  parsed_tcb (some (str s)) = object_of (w.loads s)
  parsed_tcb other = object_of other

  -- `tcb_info`
  unfoldable pub tcb_info : Dict String Json → Dict String Json
  tcb_info att = parsed_tcb (
      either (lookup "tcb_info" att)
        (lookup "tcb_info" (object_of (present_value (lookup "info" att)))))

  -- `sc.compose_hash_committed`
  unfoldable pub compose_committed : Dict String Json → Json → Option Bool
  compose_committed att quote =
      let compose = text_codes (lookup "app_compose" (tcb_info att)) in
      let mr_config = or_empty (w.appraise quote).mrconfig in
      if nonempty compose && nonempty mr_config
      then some (is_prefix (map lower (codes "0x01" ++ w.sha256_hex compose)) (map lower mr_config))
      else none

  -- the payload after `json.loads`; `none` is its exception
  abbrev loaded_payload : Json → Option Json
  loaded_payload (str s) = w.loads s
  loaded_payload other = some other

  -- `sc.gpu_attested`, where no exception leaves `verify`
  abbrev gpu_of : Option Json → Option (Option Bool)
  gpu_of none = some none
  gpu_of (some payload) = map_option (λ p. some (passes (w.attest_gpu p))) (loaded_payload payload)

  unfoldable pub gpu_attested : Dict String Json → Option (Option Bool)
  gpu_attested att = gpu_of (nvidia_payload att)

  unfoldable pub scorecard : Dict String Json → Json → List ℕ → Option Bool → ScoreCard
  scorecard att quote nonce gpu = record blank {
    backend_attested = some false;
    nonce_bound = some (is_client (lookup "nonce_source" att));
    tdx_verified = some (w.appraise quote).verified;
    report_data_binds_key = some (binds_key att quote nonce);
    key_derives_to_address = key_derives att;
    compose_hash_committed = compose_committed att quote;
    gpu_attested = gpu;
  }

  -- `if nvidia_payload:` after it was parsed
  abbrev pub wants_gpu : Option Json → Bool
  wants_gpu none = false
  wants_gpu (some payload) = is_some (present_value (loaded_payload payload))

  -- `all(required) and sc.tdx_verified is True`
  unfoldable pub is_valid : Dict String Json → ScoreCard → Bool
  is_valid att s =
      counts s.tdx_verified
      && (counts s.report_data_binds_key
          && ((not (is_some (signing_public_key att)) || counts s.key_derives_to_address)
              && (not (wants_gpu (nvidia_payload att)) || counts s.gpu_attested)))

  unfoldable pub appraised : String → Dict String Json → ScoreCard → AttestationReport
  appraised model att s = record {
    provider = "venice";
    model = model;
    valid = is_valid att s;
    attestation_type = "venice";
    signing_address = text_field (lookup "signing_address" att);
    signing_public_key = text_field (lookup "signing_public_key" att);
    scorecard = s;
    verification_status = none;
    verification_reason = none;
    error = none;
  }
    where
      text_field : Option Json → String
      text_field (some (str s)) = s
      text_field _ = ""

  abbrev pub with_quote :
      String → Dict String Json → List ℕ → Option Json → Option AttestationReport
  with_quote model att nonce none = some (failure model "no TDX quote in response")
  with_quote model att nonce (some quote) =
      map_option (λ gpu. appraised model att (scorecard att quote nonce gpu)) (gpu_attested att)

  -- `verify` of the response to a nonce; `none` where it raises
  unfoldable pub verify : String → Response → List ℕ → Option AttestationReport
  verify model (transport error) nonce = some (failure model "transport")
  verify model (status code att) nonce =
      if nat_beq code 404
      then some (failure model "no TEE attestation available for this model (404)")
      else if not (nat_beq code 200)
      then some (failure model "HTTP")
      else with_quote model att nonce (quote_hex att)
