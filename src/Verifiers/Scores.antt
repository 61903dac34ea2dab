-- ===== src/Verifiers/Scores.antt =====
-- verifiers/common.py: `ScoreCard`, the required layers of each shape, and check coverage.
use awesome_private_inferenc.Prelude.{
  String, ◌≡◌, ◌≢◌, Bool, true, false, ◌&&◌, Option, none, some, List, [], ◌∷◌, string_eq, arith,
  all, contains, eq_iff,
}
use awesome_private_inferenc.Prelude.Dict.{Dict, lookup}

-- The layers by their field names; a missing result is `none`.
pub record ScoreCard : Type 0 where
  pub nonce_bound : Option Bool
  pub tdx_verified : Option Bool
  pub report_data_binds_key : Option Bool
  pub gpu_attested : Option Bool
  pub key_derives_to_address : Option Bool
  pub compose_hash_committed : Option Bool
  pub prod_os_image : Option Bool
  pub serving_code_attested : Option Bool
  pub backend_attested : Option Bool
  pub gateway_reference_audited : Option Bool
  pub catalog_serves : Option Bool
  pub sessions_publish_evidence_digests : Option Bool
  pub catalog_nonempty : Option Bool
  pub os_image_archive_declares_production : Option Bool
  pub code_measurement_reproducible : Option Bool
  pub release_provenance_verified : Option Bool
  pub measurement_matches_release : Option Bool
  pub hardware_signature_verified : Option Bool
  pub tls_pubkey_pinned : Option Bool
  pub hpke_pubkey_attested : Option Bool
  pub client_nonce_supported : Option Bool
  pub runtime_config_fully_attested : Option Bool
  pub attested_serving_enforced : Option Bool

-- `ScoreCard()`
abbrev pub blank : ScoreCard
blank = record {
  nonce_bound = none;
  tdx_verified = none;
  report_data_binds_key = none;
  gpu_attested = none;
  key_derives_to_address = none;
  compose_hash_committed = none;
  prod_os_image = none;
  serving_code_attested = none;
  backend_attested = none;
  gateway_reference_audited = none;
  catalog_serves = none;
  sessions_publish_evidence_digests = none;
  catalog_nonempty = none;
  os_image_archive_declares_production = none;
  code_measurement_reproducible = none;
  release_provenance_verified = none;
  measurement_matches_release = none;
  hardware_signature_verified = none;
  tls_pubkey_pinned = none;
  hpke_pubkey_attested = none;
  client_nonce_supported = none;
  runtime_config_fully_attested = none;
  attested_serving_enforced = none;
}

-- `asdict(self)`
abbrev pub as_dict : ScoreCard → Dict String (Option Bool)
as_dict s =
    ("nonce_bound", s.nonce_bound)
    ∷ ("tdx_verified", s.tdx_verified)
    ∷ ("report_data_binds_key", s.report_data_binds_key)
    ∷ ("gpu_attested", s.gpu_attested)
    ∷ ("key_derives_to_address", s.key_derives_to_address)
    ∷ ("compose_hash_committed", s.compose_hash_committed)
    ∷ ("prod_os_image", s.prod_os_image)
    ∷ ("serving_code_attested", s.serving_code_attested)
    ∷ ("backend_attested", s.backend_attested)
    ∷ ("gateway_reference_audited", s.gateway_reference_audited)
    ∷ ("catalog_serves", s.catalog_serves)
    ∷ ("sessions_publish_evidence_digests", s.sessions_publish_evidence_digests)
    ∷ ("catalog_nonempty", s.catalog_nonempty)
    ∷ ("os_image_archive_declares_production", s.os_image_archive_declares_production)
    ∷ ("code_measurement_reproducible", s.code_measurement_reproducible)
    ∷ ("release_provenance_verified", s.release_provenance_verified)
    ∷ ("measurement_matches_release", s.measurement_matches_release)
    ∷ ("hardware_signature_verified", s.hardware_signature_verified)
    ∷ ("tls_pubkey_pinned", s.tls_pubkey_pinned)
    ∷ ("hpke_pubkey_attested", s.hpke_pubkey_attested)
    ∷ ("client_nonce_supported", s.client_nonce_supported)
    ∷ ("runtime_config_fully_attested", s.runtime_config_fully_attested)
    ∷ ("attested_serving_enforced", s.attested_serving_enforced)
    ∷ []

-- REQUIRED_LAYERS_BY_SHAPE
abbrev pub required_layers_by_shape : Dict String (List String)
required_layers_by_shape =
    (
      "tdx+gpu",
      "tdx_verified" ∷ "nonce_bound" ∷ "report_data_binds_key" ∷ "gpu_attested"
          ∷ "key_derives_to_address" ∷ "compose_hash_committed" ∷ "backend_attested" ∷ [],
    )
    ∷ (
      "aci-gateway",
      "tdx_verified" ∷ "nonce_bound" ∷ "report_data_binds_key" ∷ "compose_hash_committed"
          ∷ "prod_os_image" ∷ "attested_serving_enforced" ∷ [],
    )
    ∷ (
      "chutes-tee",
      "tdx_verified" ∷ "nonce_bound" ∷ "report_data_binds_key" ∷ "serving_code_attested" ∷ [],
    )
    ∷ (
      "venice",
      "tdx_verified" ∷ "nonce_bound" ∷ "report_data_binds_key" ∷ "gpu_attested"
          ∷ "key_derives_to_address" ∷ "compose_hash_committed" ∷ "prod_os_image"
          ∷ "serving_code_attested" ∷ "code_measurement_reproducible" ∷ [],
    )
    ∷ (
      "tinfoil-sev-snp-v2",
      "hardware_signature_verified" ∷ "tls_pubkey_pinned" ∷ "hpke_pubkey_attested"
          ∷ "runtime_config_fully_attested" ∷ [],
    )
    ∷ []

abbrev pub layers_or_none : Option (List String) → List String
layers_or_none none = []
layers_or_none (some layers) = layers

-- `REQUIRED_LAYERS_BY_SHAPE.get(shape, set())`
unfoldable pub required_layers : String → List String
required_layers shape = layers_or_none (lookup shape required_layers_by_shape)

-- `scorecard.get(layer) is True`
abbrev pub proven_value : Option (Option Bool) → Bool
proven_value (some (some b)) = b
proven_value _ = false

abbrev pub is_proven : Dict String (Option Bool) → String → Bool
is_proven scorecard layer = proven_value (lookup layer scorecard)

abbrev pub covered : Dict String (Option Bool) → List String → Bool
covered scorecard [] = false
covered scorecard (layer ∷ layers) = is_proven scorecard layer && all (is_proven scorecard) layers

-- `has_required_check_coverage`; `is_stage1_ready` is the same function
unfoldable pub has_required_check_coverage : Dict String (Option Bool) → String → Bool
has_required_check_coverage scorecard shape = covered scorecard (required_layers shape)

-- `is_layer_required`
unfoldable pub is_layer_required : String → String → Bool
is_layer_required layer shape = contains layer (required_layers shape)

all-contains :
    (p : String → Bool) (layers : List String) (layer : String)
    → all p layers ≡ true
    → contains layer layers ≡ true
    → p layer ≡ true
all-contains p [] layer h k = cc
all-contains p (x ∷ xs) layer h k = ground (arith, eq_iff x layer, all-contains p xs layer)

covered-contains :
    (scorecard : Dict String (Option Bool)) (layers : List String) (layer : String)
    → covered scorecard layers ≡ true
    → contains layer layers ≡ true
    → lookup layer scorecard ≡ some (some true)
covered-contains scorecard (x ∷ xs) layer h k =
    ground (arith, all-contains (is_proven scorecard) (x ∷ xs) layer h k)
covered-contains scorecard [] layer h k = cc

-- Coverage leaves no required layer out: where a scorecard has check coverage, each layer that its
-- shape requires is there and is the Boolean true, so a null or missing layer excludes coverage;
-- and a shape with no required layers is never covered.
pub coverage-required :
    (scorecard : Dict String (Option Bool)) (shape layer : String)
    → has_required_check_coverage scorecard shape ≡ true
    → (is_layer_required layer shape ≡ true → lookup layer scorecard ≡ some (some true))
      × (required_layers shape ≢ [])
unfolding has_required_check_coverage is_layer_required
coverage-required scorecard shape layer h =
    (covered-contains scorecard (required_layers shape) layer h, λ e. ground arith)
