-- ===== src/Verifiers/Tinfoil/Routing.antt =====
-- verifiers/tinfoil.py: `verify`, the catalog of model enclaves, and `model_repo_anchor`. What is
-- fetched is an argument, `Network`.
pub mod Anchor
use awesome_private_inferenc.Prelude.{
  ℕ, String, Bool, true, false, ◌&&◌, not, Option, none, some, List, [], ◌∷◌, if◌then◌else◌, ◌==◌,
  ◌!=◌, string_eq, length, select, contains, is_some,
}
use awesome_private_inferenc.Prelude.Dict.{Dict, lookup, keys}
use awesome_private_inferenc.Prelude.Text.{sort_texts}
use awesome_private_inferenc.Json.{Json, null, bool, num, str, arr, obj, truthy}
use awesome_private_inferenc.Schema.Reports.{entries}
use awesome_private_inferenc.Result.{Result, ok, err, ◌>>=◌, present}
use awesome_private_inferenc.Verifiers.Ledger.{Key}
use awesome_private_inferenc.Verifiers.Tinfoil.World.{World, Exception, missing_key, wrong_type}
use awesome_private_inferenc.Verifiers.Tinfoil.Config.{Outcome, as_object, iterate}
use awesome_private_inferenc.Verifiers.Tinfoil.Provenance.{Bundle}
use awesome_private_inferenc.Verifiers.Tinfoil.Bundle.{
  Message, unpinned_models, Details, Report, verify_bundle,
}

abbrev pub default_repo : String
default_repo = "tinfoilsh/confidential-model-router"

-- TINFOIL_MODELS: the host and the repository of each model
abbrev pub tinfoil_models : Dict String (String × String)
tinfoil_models =
    ("router", ("inference.tinfoil.sh", "tinfoilsh/confidential-model-router"))
    ∷ ("gpt-oss-120b", ("gpt-oss-120b-0.inf6.tinfoil.sh", "tinfoilsh/confidential-gpt-oss-120b"))
    ∷ (
      "llama3-3-70b",
      ("llama3-3-70b.tinfoil.containers.tinfoil.dev", "tinfoilsh/confidential-llama3-3-70b"),
    )
    ∷ (
      "gemma4-31b",
      ("gemma4-31b-inf6.tinfoil.containers.tinfoil.dev", "tinfoilsh/confidential-gemma4-31b"),
    )
    ∷ (
      "deepseek-v4-pro",
      ("deepseek-v4-pro.tinfoil.containers.tinfoil.dev", "tinfoilsh/confidential-deepseek-v4-pro"),
    )
    ∷ (
      "kimi-k2-6",
      ("kimi-k2-6.tinfoil.containers.tinfoil.dev", "tinfoilsh/confidential-kimi-k2-6"),
    )
    ∷ []

pub record Network : Type 0 where
  -- `fetch_bundle`
  pub atc_bundle : Outcome Bundle
  -- `_fetch_enclave_attestation` of a host: the format and the body
  pub attestation : String → Outcome (String × String)
  -- `_fetch_sigstore_bundle_for_repo`: the digest and the signed bundle
  pub sigstore_bundle : String → Outcome (String × Json)
  -- `_fetch_live_cert_pem` of a host
  pub live_cert_pem : String → Outcome String
  -- the router's configuration after `yaml.safe_load`, and the catalog
  pub router_config : Outcome Json
  pub catalog : Outcome Json

-- What the anchor says of the served models.
pub record Pins : Type 0 where
  pub models_served : ℕ
  pub models_pinned : ℕ
  pub models_unpinned : List String
  pub repos : List String

-- `d.get(name) or {}`
abbrev pub object_at : String → Dict String Json → Outcome (Dict String Json)
object_at name d = of (lookup name d)
  where
    of : Option Json → Outcome (Dict String Json)
    of none = ok []
    of (some v) = if truthy v then as_object v else ok []

abbrev text_value : Json → Outcome String
text_value (str s) = ok s
text_value _ = err wrong_type

-- `[m["id"] for m in ...]`
unfoldable pub ids_of : List Json → Outcome (List String)
ids_of [] = ok []
ids_of (m ∷ ms) = as_object m >>= λ d. present missing_key (lookup "id" d) >>= λ id.
    text_value id >>= λ name. ids_of ms >>= λ rest. ok (name ∷ rest)

-- `catalog.get("data", [])`
abbrev data_of : Option Json → Outcome (List Json)
data_of none = ok []
data_of (some v) = iterate v

abbrev repo_of : Option Json → List String → List String
repo_of (some (str s)) rest = if contains s rest then rest else s ∷ rest
repo_of _ rest = rest

-- `{v["repo"] for v in pinned.values() if ...}`
unfoldable pub repos_of : Dict String Json → List String
repos_of [] = []
repos_of ((k, obj fields) ∷ rest) = repo_of (lookup "repo" (entries fields)) (repos_of rest)
repos_of ((k, v) ∷ rest) = repos_of rest

-- the served models that the anchor does not name
abbrev pub unpinned_of : Dict String Json → List String → List String
unpinned_of pinned served = select (λ m. not (contains m (keys pinned))) served

-- `pinned` and `served`
unfoldable pub pinned_models : Network → Outcome (Dict String Json)
pinned_models n = n.router_config >>= λ v.
    (if truthy v then as_object v else ok []) >>= λ config. object_at "models" config

unfoldable pub served_models : Network → Outcome (List String)
served_models n =
    n.catalog >>= λ v. as_object v >>= λ d. data_of (lookup "data" d) >>= λ ms. ids_of ms

-- `model_repo_anchor`
unfoldable pub model_repo_anchor : Network → Outcome Pins
model_repo_anchor n = pinned_models n >>= λ pinned. served_models n >>= λ served. ok (record {
  models_served = length served;
  models_pinned = length pinned;
  models_unpinned = sort_texts (unpinned_of pinned served);
  repos = sort_texts (repos_of pinned);
})

-- `fetch_per_host_bundle`
unfoldable pub fetch_per_host_bundle : Network → String → String → Outcome Bundle
fetch_per_host_bundle n host repo = n.attestation host >>= λ fetched.
    n.sigstore_bundle repo >>= λ signed. n.live_cert_pem host >>= λ cert_pem. ok (record {
      domain = host;
      digest = signed.0;
      report_format = fetched.0;
      report_body_b64 = fetched.1;
      sigstore_bundle = signed.1;
      enclave_cert_pem = cert_pem;
      vcek_b64 = "";
    })

-- `report.details.update(anchor)`
abbrev updated : Report → List String → Report
updated r names = record r { details = record r.details { models_unpinned = some names } }

-- `if anchor["models_unpinned"]`, after that
unfoldable pub with_anchor : Report → List String → Report
with_anchor r [] = updated r []
with_anchor r (m ∷ ms) = record (updated r (m ∷ ms)) {
  valid = false;
  error = unpinned_models (length (m ∷ ms)) (m ∷ ms);
}

-- the enclave of a model, where the catalog has one and it is not the router
abbrev pub enclave_of : String → Option (String × String)
enclave_of model = if model == "router" then none else lookup model tinfoil_models

module _ {Row : Type 0} (w : World) (n : Network)
    (ledgers : String → Option (List (Key × Row))) where
  abbrev pub verify_router : String → Outcome Report
  verify_router model = n.atc_bundle >>= λ bundle.
      verify_bundle w (ledgers default_repo) bundle (if model == "" then "router" else model)
        default_repo
      >>= λ report. model_repo_anchor n >>= λ anchor. ok (with_anchor report anchor.models_unpinned)

  abbrev pub verify_enclave : String → String × String → Outcome Report
  verify_enclave model (host, repo) = fetch_per_host_bundle n host repo >>= λ bundle.
      verify_bundle w (ledgers repo) bundle model repo

  abbrev pub dispatched : String → Option (String × String) → Outcome Report
  dispatched model none = verify_router model
  dispatched model (some enclave) = verify_enclave model enclave

  -- `verify`; the ledgers are found by repository
  unfoldable pub verify : String → Outcome Report
  verify model = dispatched model (enclave_of model)
