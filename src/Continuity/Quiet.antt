-- ===== src/Continuity/Quiet.antt =====
-- probes/continuity.py: the events that do not state an identity as deployed.
use awesome_private_inferenc.Prelude.{
  ℕ, String, ◌≡◌, refl, Bool, true, false, ◌&&◌, ◌||◌, not, Option, none, some, List, [], ◌∷◌, ◌++◌,
  if◌then◌else◌, ◌==◌, ◌!=◌, string_eq, pair_eq, nat_eq, list_eq, All, All-append,
}
use awesome_private_inferenc.Prelude.Dict.{Dict}
use awesome_private_inferenc.Json.{Json, json_eq}
use awesome_private_inferenc.Continuity.{
  Observation, EventKind, identity_new, identity_revisited, policy_mismatch,
  untrusted_policy_reported, model_mapping_changed, key_rotated, cell_changed, Priority, Body,
  Event, Change, event, IdentityKey,
}
use awesome_private_inferenc.Continuity.Compare.{
  is_verified, has_report, one_if, retirement, status_changes, revision_changes, differences,
  policy_changes, mapping_changed, key_changed, trusted_changes, report_changes, since_prior,
  first_mismatches, missing_identities,
}
use awesome_private_inferenc.Continuity.Derive.{coverage_events}

-- The kinds that state an identity as deployed.
abbrev pub is_deployed : EventKind → Bool
is_deployed identity_new = true
is_deployed identity_revisited = true
is_deployed _ = false

unfoldable pub Quiet : Event → Type 0
Quiet e = is_deployed e.body.kind ≡ false

unfoldable pub AllQuiet : List Event → Type 0
AllQuiet es = All Quiet es

pub quiet_none : AllQuiet []
unfolding AllQuiet
quiet_none = tt

pub Quiet-cons : (e : Event) (es : List Event) → Quiet e → AllQuiet es → AllQuiet (e ∷ es)
unfolding AllQuiet
Quiet-cons e es p q = (p, q)

pub Quiet-if_one : (test : Bool) (e : Event) → Quiet e → AllQuiet (one_if test e)
unfolding AllQuiet
Quiet-if_one true e p = (p, tt)
Quiet-if_one false e p = tt

pub quiet_if :
    (test : Bool) (es fs : List Event)
    → AllQuiet es
    → AllQuiet fs
    → AllQuiet (if test then es else fs)
quiet_if true es fs p q = p
quiet_if false es fs p q = q

pub quiet_append : (es fs : List Event) → AllQuiet es → AllQuiet fs → AllQuiet (es ++ fs)
unfolding AllQuiet
quiet_append es fs = All-append Quiet es fs

deployed_if :
    (a b : EventKind) (test : Bool)
    → is_deployed a ≡ false
    → is_deployed b ≡ false
    → is_deployed (if test then a else b) ≡ false
deployed_if a b true p q = p
deployed_if a b false p q = q

module _ (digest : Body → List ℕ) (compose_key : String → String → String) where
  pub event-Quiet :
      (kind : EventKind) (route : String) (old new : Option Observation) (change : Change)
      (trust : String) (priority : Priority)
      → is_deployed kind ≡ false
      → Quiet (event digest kind route old new change trust priority)
  unfolding event Quiet
  event-Quiet kind route old new change trust priority h = h

  pub retirement-Quiet :
      (prior : Option Observation) (obs : Observation)
      → AllQuiet (retirement digest compose_key prior obs)
  unfolding retirement
  retirement-Quiet prior obs =
      quiet_if (obs.reason == "retired") _ _
        (Quiet-cons _ _ (event-Quiet _ _ _ _ _ _ _ refl) quiet_none)
        (Quiet-if_one _ _ (event-Quiet _ _ _ _ _ _ _ refl))

  status_changes-Quiet :
      (prior obs : Observation) → AllQuiet (status_changes digest compose_key prior obs)
  unfolding status_changes
  status_changes-Quiet prior obs =
      quiet_if (is_verified prior && (not (is_verified obs) && obs.reason != "retired")) _ _
        (Quiet-cons _ _
          (event-Quiet _ _ _ _ _ _ _ (deployed_if _ _ (obs.outcome == "rejected") refl refl))
          quiet_none)
        (Quiet-if_one _ _
          (event-Quiet _ _ _ _ _ _ _ (deployed_if _ _ (prior.outcome == "rejected") refl refl)))

  revision_changes-Quiet :
      (prior obs : Observation) → AllQuiet (revision_changes digest compose_key prior obs)
  unfolding revision_changes
  revision_changes-Quiet prior obs =
      quiet_append _ _ (Quiet-if_one _ _ (event-Quiet _ _ _ _ _ _ _ refl))
        (Quiet-if_one _ _ (event-Quiet _ _ _ _ _ _ _ refl))

  differences-Quiet :
      (kind : EventKind) (trust : String) (priority : Priority) (prior obs : Observation)
      (fields : List String) (old new : Dict String Json)
      → is_deployed kind ≡ false
      → AllQuiet (differences digest compose_key kind trust priority prior obs fields old new)
  unfolding differences
  differences-Quiet kind trust priority prior obs [] old new h = quiet_none
  differences-Quiet kind trust priority prior obs (field ∷ fields) old new h =
      quiet_append _ _ (Quiet-if_one _ _ (event-Quiet _ _ _ _ _ _ _ h))
        (differences-Quiet kind trust priority prior obs fields old new h)

  policy_changes-Quiet :
      (prior obs : Observation) → AllQuiet (policy_changes digest compose_key prior obs)
  unfolding policy_changes
  policy_changes-Quiet prior obs =
      quiet_if ((is_verified obs || is_verified prior) && has_report obs) _ _
        (differences-Quiet _ _ _ _ _ _ _ _
          (deployed_if policy_mismatch untrusted_policy_reported (is_verified obs) refl refl))
        quiet_none

  trusted_changes-Quiet :
      (prior obs : Observation) → AllQuiet (trusted_changes digest compose_key prior obs)
  unfolding trusted_changes
  trusted_changes-Quiet prior obs =
      quiet_append _ _
        (Quiet-if_one (mapping_changed prior obs) _
          (event-Quiet model_mapping_changed _ _ _ _ _ _ refl))
        (quiet_append _ _
          (Quiet-if_one (key_changed prior obs) _ (event-Quiet key_rotated _ _ _ _ _ _ refl))
          (differences-Quiet cell_changed _ _ prior obs _ _ _ refl))

  report_changes-Quiet :
      (prior obs : Observation) → AllQuiet (report_changes digest compose_key prior obs)
  unfolding report_changes
  report_changes-Quiet prior obs =
      quiet_if (is_verified obs && is_verified prior) _ _ (trusted_changes-Quiet prior obs) (
        quiet_if (not (is_verified obs) && has_report obs) _ _
          (differences-Quiet _ _ _ _ _ _ _ _ refl) quiet_none)

  pub since_prior-Quiet :
      (prior : Option Observation) (obs : Observation)
      → AllQuiet (since_prior digest compose_key prior obs)
  unfolding since_prior
  since_prior-Quiet none obs = Quiet-if_one _ _ (event-Quiet _ _ _ _ _ _ _ refl)
  since_prior-Quiet (some prior) obs = quiet_append _ _ (status_changes-Quiet prior obs) (
      quiet_append _ _ (revision_changes-Quiet prior obs)
        (quiet_append _ _ (policy_changes-Quiet prior obs) (report_changes-Quiet prior obs)))

  pub first_mismatches-Quiet :
      (obs : Observation) (decisions : Dict String Json)
      → AllQuiet (first_mismatches digest compose_key obs decisions)
  unfolding first_mismatches
  first_mismatches-Quiet obs [] = quiet_none
  first_mismatches-Quiet obs ((field, value) ∷ rest) =
      quiet_append _ _ (Quiet-if_one _ _ (event-Quiet _ _ _ _ _ _ _ refl))
        (first_mismatches-Quiet obs rest)

  pub missing_identities-Quiet :
      (prior obs : Observation) (ids : Dict IdentityKey String)
      → AllQuiet (missing_identities digest compose_key prior obs ids)
  unfolding missing_identities
  missing_identities-Quiet prior obs [] = quiet_none
  missing_identities-Quiet prior obs ((key, value) ∷ rest) =
      quiet_append _ _ (Quiet-if_one _ _ (event-Quiet _ _ _ _ _ _ _ refl))
        (missing_identities-Quiet prior obs rest)

  pub coverage_events-Quiet :
      (routes : List String) → AllQuiet (coverage_events digest compose_key routes)
  unfolding coverage_events
  coverage_events-Quiet [] = quiet_none
  coverage_events-Quiet (r ∷ rs) =
      Quiet-cons _ _ (event-Quiet _ _ _ _ _ _ _ refl) (coverage_events-Quiet rs)
