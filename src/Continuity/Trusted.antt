-- ===== src/Continuity/Trusted.antt =====
-- probes/continuity.py: what one attempt states of its identities.
use awesome_private_inferenc.Prelude.{
  ℕ, String, ◌≡◌, refl, Bool, true, false, ◌&&◌, Option, none, some, List, [], ◌∷◌, string_eq,
  pair_eq, nat_eq, list_eq, contains, All, All-append, ◌⊎◌, inl, inr, Bool-cases, eq_iff,
}
use awesome_private_inferenc.Json.{str, json_eq}
use awesome_private_inferenc.Continuity.{
  untrusted_identity_reported, Identity, Observation, EventKind, identity_new, identity_revisited,
  Priority, normal, high, Body, Event, event,
}
use awesome_private_inferenc.Continuity.Compare.{
  Sighting, is_verified, one_if, untrusted_identity, trusted_identity, identity_changes,
  identity_event, add_sighting, sighting,
}
use awesome_private_inferenc.Continuity.Derive.{
  compare_attempt, mismatches_if_first, missing_if_trusted,
}
use awesome_private_inferenc.Continuity.Quiet.{
  is_deployed, Quiet, AllQuiet, quiet_none, Quiet-if_one, quiet_if, event-Quiet, retirement-Quiet,
  since_prior-Quiet, first_mismatches-Quiet, missing_identities-Quiet,
}

abbrev pub In : {A : Type 0} → A → List A → Type 0
In a [] = ⊥
In a (x ∷ xs) = (a ≡ x) ⊎ In a xs

-- A verified attempt that lists what the event states.
pub record IsSighted (o : Observation) (e : Event) : Type 0 where
  pub verified : o.outcome ≡ "verified"
  pub is_new : e.body.new_observation_id ≡ some o.observation_id
  pub item : Identity
  pub listed : In item o.identities
  pub is_component : e.body.component_id ≡ some item.component_id
  pub is_value : e.body.new_value ≡ str item.value

-- An event that states an identity as deployed was sighted in an attempt.
abbrev pub IsOwn : Observation → Event → Type 0
IsOwn o e = is_deployed e.body.kind ≡ true → IsSighted o e

pub AllQuiet-IsOwn : (o : Observation) (es : List Event) → AllQuiet es → All (IsOwn o) es
unfolding AllQuiet Quiet
AllQuiet-IsOwn o [] h = tt
AllQuiet-IsOwn o (e ∷ es) h = (λ d. cc (d, h.0), AllQuiet-IsOwn o es h.1)

All-one_if : (P : Event → Type 0) (test : Bool) (e : Event) → P e → All P (one_if test e)
All-one_if P true e p = (p, tt)
All-one_if P false e p = tt

pub All-map :
    {A : Type 0} (P Q : A → Type 0) (xs : List A) → ((a : A) → P a → Q a) → All P xs → All Q xs
All-map P Q [] f h = tt
All-map P Q (x ∷ xs) f h = (f x h.0, All-map P Q xs f h.1)

pub All-In : {A : Type 0} (xs : List A) → All (λ x. In x xs) xs
All-In [] = tt
All-In (x ∷ xs) =
    (inl refl, All-map (λ y. In y xs) (λ y. In y (x ∷ xs)) xs (λ y h. inr h) (All-In xs))

module _ (digest : Body → List ℕ) (compose_key : String → String → String) where
  trusted_identity-IsOwn :
      (prior : Option Observation) (obs : Observation) (item : Identity) (seen : List Sighting)
      → is_verified obs ≡ true
      → In item obs.identities
      → All (IsOwn obs) (trusted_identity digest compose_key prior obs item seen)
  unfolding trusted_identity event
  trusted_identity-IsOwn prior obs item seen verified listed =
      elim (Bool-cases (contains (sighting item) seen)) [
        | inl old ↦ rw old (All-one_if (IsOwn obs) _ _ (sighted identity_revisited normal))
        | inr fresh ↦ rw fresh (sighted identity_new high, tt)
      ]
    where
      sighted :
          (kind : EventKind) (priority : Priority)
          → IsOwn obs
              (identity_event digest compose_key kind obs.identity_trust priority prior obs item)
      sighted kind priority d = record {
        verified = (eq_iff _ _).0 verified;
        is_new = refl;
        item = item;
        listed = listed;
        is_component = refl;
        is_value = refl;
      }

  untrusted_identity-Quiet :
      (prior : Option Observation) (obs : Observation) (item : Identity)
      → AllQuiet (untrusted_identity digest compose_key prior obs item)
  unfolding untrusted_identity
  untrusted_identity-Quiet prior obs item =
      Quiet-if_one _ _ (event-Quiet digest compose_key untrusted_identity_reported _ _ _ _ _ _ refl)

  identity_changes-IsOwn :
      (prior : Option Observation) (obs : Observation) (items : List Identity)
      (seen : List Sighting)
      → All (λ i. In i obs.identities) items
      → All (IsOwn obs) (identity_changes digest compose_key prior obs items seen).0
  unfolding identity_changes
  identity_changes-IsOwn prior obs [] seen h = tt
  identity_changes-IsOwn prior obs (item ∷ items) seen h = elim (Bool-cases (is_verified obs)) [
    | inl verified ↦ rw verified (
        All-append (IsOwn obs) _ _ (trusted_identity-IsOwn prior obs item seen verified h.0)
          (identity_changes-IsOwn prior obs items (add_sighting (sighting item) seen) h.1))
    | inr other ↦ rw other (
        All-append (IsOwn obs) _ _ (AllQuiet-IsOwn obs _ (untrusted_identity-Quiet prior obs item))
          (identity_changes-IsOwn prior obs items seen h.1))
  ]

  mismatches_if_first-Quiet :
      (prior : Option Observation) (obs : Observation)
      → AllQuiet (mismatches_if_first digest compose_key prior obs)
  mismatches_if_first-Quiet none obs =
      quiet_if (is_verified obs) _ _ (first_mismatches-Quiet digest compose_key obs _) quiet_none
  mismatches_if_first-Quiet (some prior) obs = quiet_none

  missing_if_trusted-Quiet :
      (prior : Option Observation) (obs : Observation)
      → AllQuiet (missing_if_trusted digest compose_key prior obs)
  missing_if_trusted-Quiet none obs = quiet_none
  missing_if_trusted-Quiet (some prior) obs =
      quiet_if (is_verified prior && is_verified obs) _ _
        (missing_identities-Quiet digest compose_key prior obs _) quiet_none

  pub compare_attempt-IsOwn :
      (prior : Option Observation) (obs : Observation) (seen : List Sighting)
      → All (IsOwn obs) (compare_attempt digest compose_key prior obs seen).0
  unfolding compare_attempt
  compare_attempt-IsOwn prior obs seen =
      All-append (IsOwn obs) _ _
        (AllQuiet-IsOwn obs _ (retirement-Quiet digest compose_key prior obs))
        (All-append (IsOwn obs) _ _
          (AllQuiet-IsOwn obs _ (since_prior-Quiet digest compose_key prior obs))
          (All-append (IsOwn obs) _ _ (AllQuiet-IsOwn obs _ (mismatches_if_first-Quiet prior obs)) (
            All-append (IsOwn obs) _ _ (AllQuiet-IsOwn obs _ (missing_if_trusted-Quiet prior obs))
              (identity_changes-IsOwn prior obs obs.identities seen (All-In obs.identities)))))
