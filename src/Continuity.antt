-- ===== src/Continuity.antt =====
-- probes/continuity.py: the changes that normalized observations show. `Compare` is what one attempt
-- of a route says after the one before it, `Derive` the run over all attempts, `Persist` the files.
pub mod Compare
pub mod Derive
pub mod Quiet
pub mod Trusted
pub mod Deployed
pub mod Persist
pub mod Rerun
use awesome_private_inferenc.Prelude.{
  ℕ, String, Bool, true, false, ◌&&◌, Option, none, some, List, [], ◌∷◌, ◌++◌, if◌then◌else◌, ◌==◌,
  string_eq, nat_eq, list_eq, contains, is_some,
}
use awesome_private_inferenc.Prelude.Dict.{Dict, lookup, insert, keys}
use awesome_private_inferenc.Prelude.Text.{codes}
use awesome_private_inferenc.Json.{Json, null, bool, num, str, arr, obj, truthy, json_eq}
use awesome_private_inferenc.Schema.Reports.{object_of, list_of}
use awesome_private_inferenc.Verifiers.Bindings.{take}

pub record Identity : Type 0 where
  pub component_id : String
  pub kind : String
  pub model_scope : String
  pub value : String

-- A normalized observation. The adapter's report and the reference to the raw evidence are the fields of
-- its evidence; a revision that is missing is null.
pub record Observation : Type 0 where
  pub observation_id : String
  pub run_id : String
  pub captured_at : String
  pub route_id : String
  pub outcome : String
  pub reason : String
  pub legacy : Bool
  pub identity_trust : String
  pub policy_revision : Json
  pub verifier_revision : Json
  pub identities : List Identity
  pub adapter_report : Dict String Json
  pub raw_evidence_ref : Json

pub data EventKind : Type 0 where
  route_retired route_reactivated : EventKind
  verification_rejected coverage_lost verification_restored coverage_restored : EventKind
  policy_revision_changed instrument_changed policy_mismatch untrusted_policy_reported : EventKind
  model_mapping_changed key_rotated cell_changed untrusted_cell_reported : EventKind
  identity_missing untrusted_identity_reported identity_new identity_revisited : EventKind
  coverage_unknown : EventKind

pub data Priority : Type 0 where
  normal high : Priority

-- the fields that an event's identifier is the digest of
pub record Body : Type 0 where
  pub kind : EventKind
  pub route_id : String
  pub old_observation_id : Option String
  pub new_observation_id : Option String
  pub subject : Option String
  pub old_value : Json
  pub new_value : Json
  pub component_id : Option String

-- An event, less the paths that follow from its observations' identifiers.
pub record Event : Type 0 where
  pub event_id : List ℕ
  pub body : Body
  pub old_raw_evidence_ref : Json
  pub new_raw_evidence_ref : Json
  pub seen_at : Option String
  pub affected_routes : List String
  pub trust : String
  pub priority : Priority

abbrev pub IdentityKey : Type 0
IdentityKey = String × (String × String)

-- `_identity_key`
abbrev pub identity_key : Identity → IdentityKey
identity_key i = (i.component_id, (i.kind, i.model_scope))

-- `d.get(k)`
abbrev pub get_or_null : String → Dict String Json → Json
get_or_null k d = of (lookup k d)
  where
    of : Option Json → Json
    of none = null
    of (some v) = v

-- the adapter's details and its `_cells`
abbrev pub details_of : Observation → Dict String Json
details_of o = object_of (lookup "details" o.adapter_report)

abbrev pub cells_of : Observation → Dict String Json
cells_of o = object_of (lookup "scorecard" o.adapter_report)

-- `decisions[field] = details[field]` for the fields that are there
unfoldable pub copy_fields :
    List String → (String → String) → Dict String Json → Dict String Json → Dict String Json
copy_fields [] name details decisions = decisions
copy_fields (field ∷ fields) name details decisions =
    copy_fields fields name details (with_value (lookup field details) (name field) decisions)
  where
    with_value : Option Json → String → Dict String Json → Dict String Json
    with_value none key d = d
    with_value (some v) key d = insert key v d

-- the name of a decision on one of the model's composes
module _ (compose_key : String → String → String) where
  abbrev compose_decisions : Dict String Json → Json → Dict String Json → Dict String Json
  compose_decisions item (str hash) decisions =
      if hash == ""
      then decisions
      else copy_fields ("chain_authorized" ∷ "anchored" ∷ []) (compose_key hash) item decisions
  compose_decisions item other decisions = decisions

  unfoldable pub add_composes : List Json → Dict String Json → Dict String Json
  add_composes [] decisions = decisions
  add_composes (item ∷ items) decisions =
      let d = object_of (some item) in
      add_composes items (compose_decisions d (get_or_null "compose_hash" d) decisions)

  -- `_policy_decisions`, where `compose_key` is the text of a compose's hash and field
  unfoldable pub policy_decisions : Observation → Dict String Json
  policy_decisions o = add_composes (list_of (lookup "model_composes" (details_of o))) (
      copy_fields ("chain_authorized" ∷ "anchored" ∷ "digest_audited" ∷ "mrtd_audited" ∷ [])
        (λ field. field) (details_of o) (object_of (lookup "policy_decisions" (details_of o))))

-- `_model_mapping`
unfoldable pub model_mapping : Observation → Json
model_mapping o = of (lookup "model_mapping" (details_of o))
  where
    of : Option Json → Json
    of none = get_or_null "model_mappings" (details_of o)
    of (some v) = v

abbrev or_null : Json → Json → Json
or_null a b = if truthy a then a else b

-- `_session_key`
unfoldable pub session_key : Observation → Json
session_key o =
    or_null (get_or_null "hpke_pubkey" (details_of o))
      (or_null (get_or_null "signing_public_key" o.adapter_report) null)

-- whose time an event has
abbrev pub time_of : Option Observation → Option Observation → Option String
time_of none none = none
time_of (some old) none = some old.captured_at
time_of old (some new) = some new.captured_at

abbrev pub id_of : Option Observation → Option String
id_of none = none
id_of (some o) = some o.observation_id

abbrev pub evidence_of : Option Observation → Json
evidence_of none = null
evidence_of (some o) = o.raw_evidence_ref

-- what an event says beside its kind and observations
pub record Change : Type 0 where
  pub subject : Option String
  pub old_value : Json
  pub new_value : Json
  pub component_id : Option String

abbrev pub no_change : Change
no_change = record { subject = none; old_value = null; new_value = null; component_id = none }

-- `_event`
unfoldable pub event :
    (Body → List ℕ)
    → EventKind
    → String
    → Option Observation
    → Option Observation
    → Change
    → String
    → Priority
    → Event
event digest kind route old new change trust priority =
    let body : Body = record {
      kind = kind;
      route_id = route;
      old_observation_id = id_of old;
      new_observation_id = id_of new;
      subject = change.subject;
      old_value = change.old_value;
      new_value = change.new_value;
      component_id = change.component_id;
    } in
    record {
      event_id = codes "chg-" ++ take 32 (digest body);
      body = body;
      old_raw_evidence_ref = evidence_of old;
      new_raw_evidence_ref = evidence_of new;
      seen_at = time_of old new;
      affected_routes = route ∷ [];
      trust = trust;
      priority = priority;
    }
