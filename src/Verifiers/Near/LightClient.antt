-- ===== src/Verifiers/Near/LightClient.antt =====
-- verifiers/near_ai_lightclient.py: `verify`. The request, the three checks of the vendor's library, the
-- address of a key and the two sources of authorized hashes are an argument, `World`.
pub mod Inner
pub mod Checked
use awesome_private_inferenc.Prelude.{
  ℕ, String, Bool, true, false, ◌&&◌, ◌||◌, not, Option, none, some, List, [], ◌∷◌, ◌++◌, length,
  nat_beq, if◌then◌else◌, ◌==◌, nat_eq, list_eq, string_eq, map, contains, is_some,
}
use awesome_private_inferenc.Prelude.Dict.{Dict, lookup}
use awesome_private_inferenc.Prelude.Text.{codes, lower}
use awesome_private_inferenc.Json.{Json, null, bool, num, str, arr, obj, truthy}
use awesome_private_inferenc.Schema.Reports.{entries, members}
use awesome_private_inferenc.Result.{Result, ok, err, ◌>>=◌, ◌>>◌, require, present}
use awesome_private_inferenc.Verifiers.Bindings.{take, slice}
use awesome_private_inferenc.Verifiers.Reports.{VerificationStatus, not_checked}
use awesome_private_inferenc.Verifiers.Venice.{passes}
use awesome_private_inferenc.Verifiers.Near.Chain.{
  Text, Page, address_of, fetch_onchain_set_static, fetch_onchain_set_live,
}

-- How a run fails: with a `VerificationError`, or with another exception.
pub data Failure : Type 0 where
  http_status no_models quote_unverified report_data_unbound gpu_not_passed key_not_derived :
      Failure
  no_app_id not_authorized no_pin manager_unbound no_compose_up : Failure
  commit_mismatch file_mismatch : Failure
  crashed : Failure

abbrev pub Checks : Type 0 → Type 0
Checks = Result Failure

-- an entry of MODEL_PINS
pub record Pin : Type 0 where
  pub yaml : String
  pub commit : String
  pub file_sha256 : String

-- MODEL_PINS
abbrev pub model_pins : Dict String Pin
model_pins =
    (
      "zai-org/GLM-5.1-FP8",
      record {
        yaml = "GLM-5.1.yaml";
        commit = "a94d7c776cf902e5c083960baeafb6b084c473a1";
        file_sha256 = "10146e2f3249ab6217bd506138144001fd6be666f88dff678648f19660ea997c";
      },
    )
    ∷ []

-- The mode of the check of authorized hashes; live takes the least age in seconds.
pub data Onchain : Type 0 where
  static skip : Onchain
  live : ℕ → Onchain

-- the parameters of a page
abbrev pub Query : Type 0
Query = Dict String Json

-- a response's status, and its body if that is an object
pub record Response : Type 0 where
  pub status_code : ℕ
  pub body : Option (Dict String Json)

pub record World : Type 0 where
  -- the report for a model and a nonce; `none` where the request raises
  pub attestation_report : String → List ℕ → Option Response
  pub check_tdx_quote : Dict String Json → Json
  pub check_report_data : Dict String Json → List ℕ → Json → Dict String Json
  pub check_gpu : Dict String Json → List ℕ → Dict String Json
  pub keccak_eth_address : List ℕ → Option (List ℕ)
  -- the captured file, the logs of a contract's address, time stamps and the clock
  pub captured : Dict Text (List Text)
  pub logs : Text → Option Query → Option (Page Query)
  pub timestamp : Text → Option ℕ
  pub now : ℕ

-- the result
pub record LightReport : Type 0 where
  pub valid : Bool
  pub verification_status : VerificationStatus
  pub model_name : String
  pub signing_address : List ℕ
  pub signing_public_key : List ℕ
  pub app_id : List ℕ
  pub compose_hash : List ℕ
  pub onchain_set_size : ℕ
  pub onchain_check : Onchain
  pub inner_yaml : Option Json
  pub inner_commit : Json
  pub inner_file_sha256 : Json
  pub inner_tag : Option Json
  pub inner_timestamp : Option Json

abbrev pub as_object : Json → Checks (Dict String Json)
as_object (obj fields) = ok (entries fields)
as_object _ = err crashed

abbrev pub as_list : Json → Checks (List Json)
as_list (arr items) = ok (members items)
as_list _ = err crashed

abbrev as_text : Json → Checks (List ℕ)
as_text (str s) = ok (codes s)
as_text _ = err crashed

-- `d.get(name, "")`, of which only texts have a lower case
abbrev pub text_at : String → Dict String Json → Checks (List ℕ)
text_at name d = of (lookup name d)
  where
    of : Option Json → Checks (List ℕ)
    of none = ok []
    of (some v) = as_text v

abbrev pub is_set : Option Json → Bool
is_set none = false
is_set (some v) = truthy v

-- `d.get(name) or {}`, and `d.get(name) or []`
abbrev pub object_or_empty : String → Dict String Json → Checks (Dict String Json)
object_or_empty name d = of (lookup name d)
  where
    of : Option Json → Checks (Dict String Json)
    of none = ok []
    of (some v) = if truthy v then as_object v else ok []

abbrev pub list_or_empty : String → Dict String Json → Checks (List Json)
list_or_empty name d = of (lookup name d)
  where
    of : Option Json → Checks (List Json)
    of none = ok []
    of (some v) = if truthy v then as_list v else ok []

abbrev pub nonempty : List ℕ → Bool
nonempty [] = false
nonempty (_ ∷ _) = true

abbrev pub is_text : String → Option Json → Bool
is_text s (some (str t)) = t == s
is_text s _ = false

-- `intel and intel.get("verified")`
abbrev pub quote_verified : Json → Bool
quote_verified (obj fields) = is_set (lookup "verified" (entries fields))
quote_verified _ = false

-- `d.get(name, "")`, where what is not set counts as empty
abbrev pub set_text_at : String → Dict String Json → Checks (List ℕ)
set_text_at name d = of (lookup name d)
  where
    of : Option Json → Checks (List ℕ)
    of none = ok []
    of (some v) = if truthy v then as_text v else ok []

-- `models[0]`
abbrev pub first_model : List Json → Checks (Dict String Json)
first_model [] = err no_models
first_model (m ∷ ms) = as_object m

-- `m.get("info", {})`
abbrev pub info_of : Option Json → Checks (Dict String Json)
info_of none = ok []
info_of (some v) = as_object v

-- `a.get("action") == "compose_up" and a.get("file") == pin["yaml"]`
abbrev pub is_compose_up : Pin → Dict String Json → Bool
is_compose_up pin a = is_text "compose_up" (lookup "action" a) && is_text pin.yaml (lookup "file" a)

-- `matching[-1]`, if there is one
unfoldable pub latest_compose_up :
    Pin → List Json → Option (Dict String Json) → Checks (Option (Dict String Json))
latest_compose_up pin [] found = ok found
latest_compose_up pin (v ∷ vs) found =
    as_object v >>= λ a. latest_compose_up pin vs (if is_compose_up pin a then some a else found)

abbrev pub key_derives : (List ℕ → Option (List ℕ)) → List ℕ → List ℕ → Checks (Unit {0})
key_derives keccak spk addr =
    let derived = present crashed (keccak spk) >>= λ d.
    require (map lower d == map lower addr) key_not_derived in
    if nonempty spk && nonempty addr then derived else err key_not_derived

-- `compose in {h.lower() for h in onchain_set}`
abbrev pub authorized : Text → List Text → Checks (List Text)
authorized compose set = require (contains compose (map (map lower) set)) not_authorized >> ok set

-- `report_data` binds the hash of the actions and the nonce
abbrev pub manager_binds : List ℕ → List ℕ → List ℕ → Bool
manager_binds report_data actions_hash nonce =
    map lower (take 64 report_data) == map lower actions_hash && slice 64 64 report_data == nonce

module _ (w : World) where
  unfoldable pub onchain_set : Onchain → Text → Text → Checks (List Text)
  onchain_set skip app_id compose = ok []
  onchain_set static app_id compose =
      authorized compose (fetch_onchain_set_static w.captured app_id)
  onchain_set (live min_age) app_id compose =
      present crashed
        (fetch_onchain_set_live w.timestamp (w.logs (address_of app_id)) w.now min_age)
      >>= authorized compose

  -- the first model of the response
  unfoldable pub first_attestation : String → List ℕ → Checks (Dict String Json)
  first_attestation model nonce = present crashed (w.attestation_report model nonce) >>= λ response.
      require (nat_beq response.status_code 200) http_status
      >> (present crashed response.body >>= λ report.
          list_or_empty "model_attestations" report >>= λ models. first_model models)

  -- Block A: quote, report data, GPU and key; the address and the key
  unfoldable pub check_block_a : Dict String Json → List ℕ → Checks (List ℕ × List ℕ)
  check_block_a m nonce =
      let intel = w.check_tdx_quote m in
      require (quote_verified intel) quote_unverified
      >> (let rd = w.check_report_data m nonce intel in
          require (is_set (lookup "binds_address" rd) && is_set (lookup "embeds_nonce" rd))
            report_data_unbound
          >> (let gpu = w.check_gpu m nonce in
              require (passes (lookup "verdict" gpu) && is_set (lookup "nonce_matches" gpu))
                gpu_not_passed
              >> (set_text_at "signing_public_key" m >>= λ spk.
                  set_text_at "signing_address" m >>= λ addr.
                  key_derives w.keccak_eth_address spk addr >> ok (addr, spk))))

-- the latest action for the pinned file, with its commit and digest
unfoldable pub check_latest : Pin → List Json → Checks (Dict String Json × Json × Json)
check_latest pin actions = latest_compose_up pin actions none >>= λ matching.
    present no_compose_up matching >>= λ latest.
    present crashed (lookup "commit" latest) >>= λ commit.
    require (is_text pin.commit (some commit)) commit_mismatch
    >> (present crashed (lookup "file_sha256" latest) >>= λ file_sha256.
        require (is_text pin.file_sha256 (some file_sha256)) file_mismatch
        >> ok (latest, commit, file_sha256))

-- the inner closure: the compose manager's actions and its detached report data
unfoldable pub check_inner :
    Dict String Json → String → List ℕ → Checks (Dict String Json × Json × Json)
check_inner m model nonce = present no_pin (lookup model model_pins) >>= λ pin.
    object_or_empty "compose_manager_attestation" m >>= λ cm.
    list_or_empty "actions" cm >>= λ actions. text_at "actions_hash" cm >>= λ actions_hash.
    text_at "report_data" cm >>= λ cm_rd.
    require (manager_binds cm_rd actions_hash nonce) manager_unbound >> check_latest pin actions

-- `verify` with the nonce that the request carries
unfoldable pub verify : World → String → Onchain → List ℕ → Checks LightReport
verify w model mode nonce = first_attestation w model nonce >>= λ m.
    check_block_a w m nonce >>= λ keys. info_of (lookup "info" m) >>= λ info.
    text_at "app_id" info >>= λ app_id. text_at "compose_hash" info >>= λ compose.
    require (nonempty app_id && nonempty compose) no_app_id
    >> (onchain_set w mode (map lower app_id) (map lower compose) >>= λ set.
        check_inner m model nonce >>= λ inner. ok (record {
          valid = false;
          verification_status = not_checked;
          model_name = model;
          signing_address = keys.0;
          signing_public_key = keys.1;
          app_id = codes "0x" ++ map lower app_id;
          compose_hash = codes "0x" ++ map lower compose;
          onchain_set_size = length set;
          onchain_check = mode;
          inner_yaml = lookup "file" inner.0;
          inner_commit = inner.1;
          inner_file_sha256 = inner.2;
          inner_tag = lookup "tag" inner.0;
          inner_timestamp = lookup "timestamp" inner.0;
        }))
