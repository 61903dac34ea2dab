-- ===== src/Verifiers/Tinfoil/Config.antt =====
-- verifiers/tinfoil.py: `_audit_attested_config`, the tally of the settings that a release leaves
-- outside of what it attests.
pub mod Committed
pub mod Sealed
use awesome_private_inferenc.Prelude.{
  ℕ, ◌+◌, String, ◌≡◌, Bool, true, false, ◌&&◌, ◌||◌, Option, none, some, List, [], ◌∷◌, ◌++◌, all,
  any, leb, nat_beq, length, if◌then◌else◌, ◌==◌, nat_eq, list_eq, string_eq, map, not,
}
use awesome_private_inferenc.Prelude.Dict.{Dict, lookup, keys}
use awesome_private_inferenc.Prelude.Text.{codes, is_prefix, is_infix}
use awesome_private_inferenc.Json.{Json, Fields, Items, null, bool, num, str, arr, obj, truthy}
use awesome_private_inferenc.Schema.Reports.{entries, members}
use awesome_private_inferenc.Result.{Result, ok, err, ◌>>=◌, ◌>>◌, require, present}
use awesome_private_inferenc.Verifiers.Ledger.{is_hex_digit}
use awesome_private_inferenc.Verifiers.Hex.{Bytes}
use awesome_private_inferenc.Verifiers.Bindings.{take, drop}
use awesome_private_inferenc.Verifiers.Tinfoil.World.{
  World, Exception, missing_key, wrong_type, invalid_yaml, invalid_base64, missing_config,
  missing_config_hash, config_hash_mismatch,
}

abbrev pub Outcome {ℓ} : Type ℓ → Type ℓ
Outcome A = Result Exception A

-- One container: its settings with values from outside, those with attested values, its secrets.
-- A setting that is an object contributes its keys to the attested ones.
pub record ContainerEntry : Type 0 where
  pub name : Option Json
  pub image : Option Json
  pub image_pinned_by_digest : Bool
  pub env_external : List String
  pub env_attested : List String
  pub secrets_external : List Json

-- `_ConfigAudit`; the version is kept as the value that the source turns into a text
pub record ConfigAudit : Type 0 where
  pub cvm_version : Option Json
  pub container_count : ℕ
  pub containers : List ContainerEntry
  pub total_env_external : ℕ
  pub total_secrets_external : ℕ

-- `fully_attested`
unfoldable pub fully_attested : ConfigAudit → Bool
fully_attested a = nat_beq a.total_env_external 0 && nat_beq a.total_secrets_external 0

abbrev pub config_hash_label : List ℕ
config_hash_label = codes "tinfoil-config-hash="

-- `[0-9a-f]{64}` at the start of a text
abbrev hash_at : List ℕ → Option (List ℕ)
hash_at text =
    let hash = take 64 text in
    if nat_beq (length hash) 64 && all is_hex_digit hash then some hash else none

abbrev first_of {ℓ} : {A : Type ℓ} → Option A → Option A → Option A
first_of none other = other
first_of (some a) other = some a

-- the label and the hash at the start of a text
unfoldable pub labelled_hash : List ℕ → Option (List ℕ)
labelled_hash text = if is_prefix config_hash_label text then hash_at (drop 20 text) else none

-- `re.search(r"tinfoil-config-hash=([0-9a-f]{64})", cmdline)`
unfoldable pub config_hash_in : List ℕ → Option (List ℕ)
config_hash_in [] = none
config_hash_in (c ∷ cs) = first_of (labelled_hash (c ∷ cs)) (config_hash_in cs)

-- a dict, for `v.get` and `v[k]`
abbrev pub as_object : Json → Outcome (Dict String Json)
as_object (obj fields) = ok (entries fields)
as_object _ = err wrong_type

abbrev pub as_text : Json → Outcome (List ℕ)
as_text (str s) = ok (codes s)
as_text _ = err wrong_type

-- `list(v)`: a list, the keys of a dict, the characters of a text
unfoldable pub iterate : Json → Outcome (List Json)
iterate (arr items) = ok (members items)
iterate (obj fields) = ok (map str (keys (entries fields)))
iterate (str s) = ok (characters s)
  where
    characters : String → List Json
    characters String.[] = []
    characters (String.◌∷◌ c rest) = str (String.◌∷◌ c String.[]) ∷ characters rest
iterate _ = err wrong_type

-- `iter(d.get(name) or [])`
unfoldable pub list_at : String → Dict String Json → Outcome (List Json)
list_at name d = of (lookup name d)
  where
    of : Option Json → Outcome (List Json)
    of none = ok []
    of (some v) = if truthy v then iterate v else ok []

-- the settings of one container, by the form of each entry
unfoldable pub external_settings : List Json → List String
external_settings [] = []
external_settings (str s ∷ rest) = s ∷ external_settings rest
external_settings (_ ∷ rest) = external_settings rest

unfoldable pub attested_settings : List Json → List String
attested_settings [] = []
attested_settings (obj fields ∷ rest) = keys (entries fields) ++ attested_settings rest
attested_settings (_ ∷ rest) = attested_settings rest

abbrev is_text : String → Json → Bool
is_text s (str t) = t == s
is_text s _ = false

-- `"@sha256:" in (image or "")`
unfoldable pub is_pinned : Option Json → Outcome Bool
is_pinned none = ok false
is_pinned (some (str s)) = ok (is_infix (codes "@sha256:") (codes s))
is_pinned (some (arr items)) = ok (any (is_text "@sha256:") (members items))
is_pinned (some (obj fields)) = ok (any (λ k. k == "@sha256:") (keys (entries fields)))
is_pinned (some v) = if truthy v then err wrong_type else ok false

-- the body of the loop over the containers
unfoldable pub audit_container : Json → Outcome ContainerEntry
audit_container c = as_object c >>= λ d. list_at "env" d >>= λ env.
    list_at "secrets" d >>= λ secrets. is_pinned (lookup "image" d) >>= λ pinned. ok (record {
      name = lookup "name" d;
      image = lookup "image" d;
      image_pinned_by_digest = pinned;
      env_external = external_settings env;
      env_attested = attested_settings env;
      secrets_external = secrets;
    })

unfoldable pub audit_containers : List Json → Outcome (List ContainerEntry)
audit_containers [] = ok []
audit_containers (c ∷ cs) =
    audit_container c >>= λ entry. audit_containers cs >>= λ rest. ok (entry ∷ rest)

abbrev pub sum_of : (ContainerEntry → ℕ) → List ContainerEntry → ℕ
sum_of f [] = 0
sum_of f (x ∷ xs) = f x + sum_of f xs

-- `cfg.get("containers") or []`, where any value but a list fails later: a dict or a text has keys
-- or characters, which have no `get`, and a number is not iterable
abbrev pub containers_of : Option Json → Outcome (List Json)
containers_of none = ok []
containers_of (some (arr items)) = ok (members items)
containers_of (some v) = if truthy v then err wrong_type else ok []

-- `yaml.safe_load(config_bytes) or {}`
abbrev pub loaded : Option Json → Outcome (Dict String Json)
loaded none = err invalid_yaml
loaded (some v) = if truthy v then as_object v else ok []

module _ (w : World) where
  -- the bytes of the configuration that the command line commits to
  unfoldable pub bound_config : Dict String Json → Outcome Bytes
  bound_config predicate = present missing_config (lookup "config" predicate) >>= λ config.
      present missing_config (lookup "cmdline" predicate) >>= λ cmdline.
      as_text config >>= λ encoded. present invalid_base64 (w.b64decode encoded) >>= λ config_bytes.
      as_text cmdline >>= λ line. present missing_config_hash (config_hash_in line) >>= λ hash.
      require (hash == w.sha256 config_bytes) config_hash_mismatch >> ok config_bytes

  -- `_audit_attested_config`
  unfoldable pub audit_attested_config : Dict String Json → Outcome ConfigAudit
  audit_attested_config predicate = bound_config predicate >>= λ config_bytes.
      loaded (w.yaml config_bytes) >>= λ cfg.
      containers_of (lookup "containers" cfg) >>= λ containers_raw.
      audit_containers containers_raw >>= λ audit_entries. ok (record {
        cvm_version = lookup "cvm-version" cfg;
        container_count = length containers_raw;
        containers = audit_entries;
        total_env_external = sum_of (λ e. length e.env_external) audit_entries;
        total_secrets_external = sum_of (λ e. length e.secrets_external) audit_entries;
      })
