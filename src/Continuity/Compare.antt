-- ===== src/Continuity/Compare.antt =====
-- probes/continuity.py: what one attempt of a route says after the one before it, in the loop of
-- `derive_events`.
use awesome_private_inferenc.Prelude.{
  ℕ, String, Bool, true, false, ◌&&◌, ◌||◌, not, Option, none, some, List, [], ◌∷◌, ◌++◌,
  if◌then◌else◌, ◌==◌, ◌!=◌, string_eq, pair_eq, contains, select,
}
use awesome_private_inferenc.Prelude.Dict.{Dict, lookup, insert, keys}
use awesome_private_inferenc.Prelude.Text.{sort_texts}
use awesome_private_inferenc.Json.{Json, null, str, is_false, json_eq, truthy}
use awesome_private_inferenc.Continuity.{
  Identity, Observation, EventKind, route_retired, route_reactivated, verification_rejected,
  coverage_lost, verification_restored, coverage_restored, policy_revision_changed,
  instrument_changed, policy_mismatch, untrusted_policy_reported, model_mapping_changed,
  key_rotated, cell_changed, untrusted_cell_reported, identity_missing, untrusted_identity_reported,
  identity_new, identity_revisited, Priority, normal, high, Body, Event, IdentityKey, identity_key,
  get_or_null, cells_of, policy_decisions, model_mapping, session_key, no_change, event,
}

-- an identity that was seen, with its value
abbrev pub Sighting : Type 0
Sighting = IdentityKey × String

abbrev pub sighting : Identity → Sighting
sighting i = (identity_key i, i.value)

abbrev pub is_verified : Observation → Bool
is_verified o = o.outcome == "verified"

abbrev pub has_report : Observation → Bool
has_report o = nonempty o.adapter_report
  where
    nonempty : Dict String Json → Bool
    nonempty [] = false
    nonempty (x ∷ xs) = true

abbrev pub one_if : Bool → Event → List Event
one_if true e = e ∷ []
one_if false e = []

-- `{_identity_key(x): x["value"] for x in identities}`
unfoldable pub values_by_key : List Identity → Dict IdentityKey String → Dict IdentityKey String
values_by_key [] d = d
values_by_key (i ∷ is) d = values_by_key is (insert (identity_key i) i.value d)

abbrev pub prior_ids : Option Observation → Dict IdentityKey String
prior_ids none = []
prior_ids (some p) = values_by_key p.identities []

abbrev text_or_null : Option String → Json
text_or_null none = null
text_or_null (some s) = str s

abbrev pub has_value : Option String → String → Bool
has_value none v = false
has_value (some s) v = s == v

-- `sorted(old.keys() | new.keys())`
unfoldable pub either_keys : Dict String Json → Dict String Json → List String
either_keys old new = sort_texts (keys old ++ select (λ k. not (contains k (keys old))) (keys new))

abbrev pub is_present : Json → Bool
is_present null = false
is_present v = true

abbrev pub sightings_of : Option Observation → List Sighting
sightings_of none = []
sightings_of (some p) = all_of p.identities
  where
    all_of : List Identity → List Sighting
    all_of [] = []
    all_of (i ∷ is) = sighting i ∷ all_of is

abbrev pub add_sighting : Sighting → List Sighting → List Sighting
add_sighting s seen = if contains s seen then seen else s ∷ seen

unfoldable pub mapping_changed : Observation → Observation → Bool
mapping_changed prior obs =
    is_present (model_mapping prior)
    && (is_present (model_mapping obs) && model_mapping prior != model_mapping obs)

unfoldable pub key_changed : Observation → Observation → Bool
key_changed prior obs =
    truthy (session_key prior) && (truthy (session_key obs) && session_key prior != session_key obs)

module _ (digest : Body → List ℕ) (compose_key : String → String → String) where
  -- the first test, on routes that retire or come back
  unfoldable pub retirement : Option Observation → Observation → List Event
  retirement prior obs =
      if obs.reason == "retired"
      then event digest route_retired obs.route_id prior (some obs)
          (record no_change { old_value = outcome_of prior; new_value = str "retired" }) "declared"
          normal
        ∷ []
      else one_if (was_retired prior && is_verified obs) (
          event digest route_reactivated obs.route_id prior (some obs)
            (record no_change { old_value = str "retired"; new_value = str obs.outcome })
            obs.identity_trust high)
    where
      outcome_of : Option Observation → Json
      outcome_of none = null
      outcome_of (some p) = str p.outcome

      was_retired : Option Observation → Bool
      was_retired none = false
      was_retired (some p) = p.reason == "retired"

  -- a status that was lost or restored
  unfoldable pub status_changes : Observation → Observation → List Event
  status_changes prior obs =
      let change = record no_change {
        old_value = str prior.outcome;
        new_value = str obs.outcome;
      } in
      let lost = if obs.outcome == "rejected" then verification_rejected else coverage_lost in
      let restored =
        if prior.outcome == "rejected" then verification_restored else coverage_restored in
      if is_verified prior && (not (is_verified obs) && obs.reason != "retired")
      then event digest lost obs.route_id (some prior) (some obs) change obs.identity_trust high
        ∷ []
      else one_if (not (is_verified prior) && is_verified obs) (
          event digest restored obs.route_id (some prior) (some obs) change obs.identity_trust
            normal)

  -- revisions of the policy and of the instrument
  unfoldable pub revision_changes : Observation → Observation → List Event
  revision_changes prior obs =
      one_if (prior.policy_revision != obs.policy_revision) (
        event digest policy_revision_changed obs.route_id (some prior) (some obs)
          (record {
            subject = some "policy_revision";
            old_value = prior.policy_revision;
            new_value = obs.policy_revision;
            component_id = none;
          })
          obs.identity_trust high)
      ++ one_if (prior.verifier_revision != obs.verifier_revision) (
          event digest instrument_changed obs.route_id (some prior) (some obs)
            (record {
              subject = some "verifier_revision";
              old_value = prior.verifier_revision;
              new_value = obs.verifier_revision;
              component_id = none;
            })
            obs.identity_trust normal)

  -- an event of a kind for each field on which two dicts differ
  unfoldable pub differences :
      EventKind
      → String
      → Priority
      → Observation
      → Observation
      → List String
      → Dict String Json
      → Dict String Json
      → List Event
  differences kind trust priority prior obs [] old new = []
  differences kind trust priority prior obs (field ∷ fields) old new =
      one_if (get_or_null field old != get_or_null field new) (
        event digest kind obs.route_id (some prior) (some obs)
          (record {
            subject = some field;
            old_value = get_or_null field old;
            new_value = get_or_null field new;
            component_id = none;
          })
          trust priority)
      ++ differences kind trust priority prior obs fields old new

  unfoldable pub policy_changes : Observation → Observation → List Event
  policy_changes prior obs =
      let old = policy_decisions compose_key prior in
      let new = policy_decisions compose_key obs in
      let kind = if is_verified obs then policy_mismatch else untrusted_policy_reported in
      if (is_verified obs || is_verified prior) && has_report obs
      then differences kind obs.identity_trust high prior obs (sort_texts (keys new)) old new
      else []

  -- what two verified attempts say of the mapping, the session key and the cells
  unfoldable pub trusted_changes : Observation → Observation → List Event
  trusted_changes prior obs =
      one_if (mapping_changed prior obs) (
        event digest model_mapping_changed obs.route_id (some prior) (some obs)
          (record {
            subject = some "model_mapping";
            old_value = model_mapping prior;
            new_value = model_mapping obs;
            component_id = none;
          })
          obs.identity_trust high)
      ++ (one_if (key_changed prior obs) (
            event digest key_rotated obs.route_id (some prior) (some obs)
              (record {
                subject = some "session_key";
                old_value = session_key prior;
                new_value = session_key obs;
                component_id = none;
              })
              obs.identity_trust normal)
          ++ differences cell_changed obs.identity_trust normal prior obs
              (either_keys (cells_of prior) (cells_of obs)) (cells_of prior) (cells_of obs))

  -- those, or the cells of an attempt that is not verified
  unfoldable pub report_changes : Observation → Observation → List Event
  report_changes prior obs =
      if is_verified obs && is_verified prior
      then trusted_changes prior obs
      else if not (is_verified obs) && has_report obs
      then differences untrusted_cell_reported "untrusted_report" normal prior obs
          (either_keys (cells_of prior) (cells_of obs)) (cells_of prior) (cells_of obs)
      else []

  -- `if prior: ... elif obs["outcome"] == "rejected"`
  unfoldable pub since_prior : Option Observation → Observation → List Event
  since_prior none obs = one_if (obs.outcome == "rejected") (
      event digest verification_rejected obs.route_id none (some obs)
        (record no_change { new_value = str "rejected" }) obs.identity_trust high)
  since_prior (some prior) obs =
      status_changes prior obs
      ++ (revision_changes prior obs ++ (policy_changes prior obs ++ report_changes prior obs))

  -- decisions against a route that has no attempt before this one
  unfoldable pub first_mismatches : Observation → Dict String Json → List Event
  first_mismatches obs [] = []
  first_mismatches obs ((field, value) ∷ rest) =
      one_if (is_false value) (
        event digest policy_mismatch obs.route_id none (some obs)
          (record no_change { subject = some field; new_value = value }) obs.identity_trust high)
      ++ first_mismatches obs rest

  -- identities of the attempt before that a verified one no longer has
  unfoldable pub missing_identities :
      Observation → Observation → Dict IdentityKey String → List Event
  missing_identities prior obs [] = []
  missing_identities prior obs ((key, value) ∷ rest) =
      one_if (not (contains key (keys (values_by_key obs.identities [])))) (
        event digest identity_missing obs.route_id (some prior) (some obs)
          (record {
            subject = some key.1.0;
            old_value = str value;
            new_value = null;
            component_id = some key.0;
          })
          "unknown" high)
      ++ missing_identities prior obs rest

  abbrev pub identity_event :
      EventKind → String → Priority → Option Observation → Observation → Identity → Event
  identity_event kind trust priority prior obs item =
      event digest kind obs.route_id prior (some obs)
        (record {
          subject = some item.kind;
          old_value = text_or_null (lookup (identity_key item) (prior_ids prior));
          new_value = str item.value;
          component_id = some item.component_id;
        })
        trust priority

  -- an identity of an attempt that is not verified
  unfoldable pub untrusted_identity : Option Observation → Observation → Identity → List Event
  untrusted_identity prior obs item =
      one_if (not (contains (sighting item) (sightings_of prior)))
        (identity_event untrusted_identity_reported "untrusted_report" high prior obs item)

  -- an identity of a verified attempt, after the identities that were seen
  unfoldable pub trusted_identity :
      Option Observation → Observation → Identity → List Sighting → List Event
  trusted_identity prior obs item seen =
      if contains (sighting item) seen
      then one_if (not (has_value (lookup (identity_key item) (prior_ids prior)) item.value))
          (identity_event identity_revisited obs.identity_trust normal prior obs item)
      else identity_event identity_new obs.identity_trust high prior obs item ∷ []

  -- the loop over the identities; the second part is what was seen after it
  unfoldable pub identity_changes :
      Option Observation → Observation → List Identity → List Sighting → List Event × List Sighting
  identity_changes prior obs [] seen = ([], seen)
  identity_changes prior obs (item ∷ items) seen =
      let untrusted = identity_changes prior obs items seen in
      let trusted = identity_changes prior obs items (add_sighting (sighting item) seen) in
      if is_verified obs
      then (trusted_identity prior obs item seen ++ trusted.0, trusted.1)
      else (untrusted_identity prior obs item ++ untrusted.0, untrusted.1)
