-- ===== src/Continuity/Deployed.antt =====
-- probes/continuity.py: which events of `derive_events` state that an identity is deployed.
use awesome_private_inferenc.Prelude.{
  ℕ, String, ◌≡◌, Bool, true, false, Option, none, some, List, [], ◌∷◌, if◌then◌else◌, string_eq,
  pair_eq, nat_eq, list_eq, All, All-append, inl, inr, Bool-cases,
}
use awesome_private_inferenc.Prelude.Dict.{Dict, lookup, insert, Every, Every-insert}
use awesome_private_inferenc.Prelude.Text.{codes}
use awesome_private_inferenc.Json.{json_eq}
use awesome_private_inferenc.Continuity.{Observation, Body, Event}
use awesome_private_inferenc.Continuity.Derive.{
  Progress, place, ordered, step, steps, widened, by_id, place_event, sort_events, affected,
  with_routes, routes_with, run_of, derive_events, comes_before, is_before,
}
use awesome_private_inferenc.Continuity.Quiet.{is_deployed, Quiet, AllQuiet, coverage_events-Quiet}
use awesome_private_inferenc.Continuity.Trusted.{
  In, IsSighted, IsOwn, compare_attempt-IsOwn, All-map, All-In,
}

-- An event that states an identity as deployed was sighted in an attempt of a list.
abbrev pub IsTrusted : List Observation → Event → Type 0
IsTrusted os e = is_deployed e.body.kind ≡ true → (o : Observation) × In o os × IsSighted o e

place-All :
    (P : Observation → Type 0) (o : Observation) (os : List Observation)
    → P o
    → All P os
    → All P (place o os)
unfolding place
place-All P o [] p h = (p, tt)
place-All P o (x ∷ xs) p h = elim (Bool-cases (comes_before o x)) [
  | inl first ↦ rw first (p, (h.0, h.1))
  | inr later ↦ rw later (h.0, place-All P o xs p h.1)
]

ordered-All : (P : Observation → Type 0) (os : List Observation) → All P os → All P (ordered os)
unfolding ordered
ordered-All P [] h = tt
ordered-All P (o ∷ os) h = place-All P o (ordered os) h.0 (ordered-All P os h.1)

own-IsTrusted :
    (os : List Observation) (o : Observation) (es : List Event)
    → In o os
    → All (IsOwn o) es
    → All (IsTrusted os) es
own-IsTrusted os o es member h =
    All-map (IsOwn o) (IsTrusted os) es (λ e own d. (o, member, own d)) h

AllQuiet-IsTrusted : (os : List Observation) (es : List Event) → AllQuiet es → All (IsTrusted os) es
unfolding AllQuiet Quiet
AllQuiet-IsTrusted os [] h = tt
AllQuiet-IsTrusted os (e ∷ es) h = (λ d. cc (d, h.0), AllQuiet-IsTrusted os es h.1)

with_routes-IsTrusted :
    (all : List Observation) (e : Event) (routes : List String)
    → IsTrusted all e
    → IsTrusted all (with_routes e routes)
with_routes-IsTrusted all e [] h = h
with_routes-IsTrusted all e (r ∷ rs) h = λ d.
    let (o, member, s) = h d in
    (
      o,
      member,
      record {
        verified = s.verified;
        is_new = s.is_new;
        item = s.item;
        listed = s.listed;
        is_component = s.is_component;
        is_value = s.is_value;
      },
    )

affected-IsTrusted :
    (os all : List Observation) (e : Event) (new_id component : Option String)
    → IsTrusted all e
    → IsTrusted all (affected os e new_id component)
affected-IsTrusted os all e none component h = h
affected-IsTrusted os all e (some new_id) none h = h
affected-IsTrusted os all e (some new_id) (some component) h =
    with_routes-IsTrusted all e (routes_with (run_of (codes new_id)) component os) h

widened-All :
    (os all : List Observation) (es : List Event)
    → All (IsTrusted all) es
    → All (IsTrusted all) (widened os es)
unfolding widened
widened-All os all [] h = tt
widened-All os all (e ∷ es) h = (
  affected-IsTrusted os all e e.body.new_observation_id e.body.component_id h.0,
  widened-All os all es h.1,
)

by_id-Every :
    (os : List Observation) (es : List Event) (d : Dict (List ℕ) Event)
    → All (IsTrusted os) es
    → Every (λ k e. IsTrusted os e) d
    → Every (λ k e. IsTrusted os e) (by_id es d)
unfolding by_id
by_id-Every os [] d h k = k
by_id-Every os (e ∷ es) d h k =
    by_id-Every os es (insert e.event_id e d) h.1
      (Every-insert (λ i x. IsTrusted os x) e.event_id e d h.0 k)

place_event-All :
    (os : List Observation) (e : Event) (es : List Event)
    → IsTrusted os e
    → All (IsTrusted os) es
    → All (IsTrusted os) (place_event e es)
unfolding place_event
place_event-All os e [] p h = (p, tt)
place_event-All os e (x ∷ xs) p h = elim (Bool-cases (is_before e x)) [
  | inl first ↦ rw first (p, (h.0, h.1))
  | inr later ↦ rw later (h.0, place_event-All os e xs p h.1)
]

sort_events-All :
    (os : List Observation) (d : Dict (List ℕ) Event)
    → Every (λ k e. IsTrusted os e) d
    → All (IsTrusted os) (sort_events d)
unfolding sort_events
sort_events-All os [] h = tt
sort_events-All os ((k, e) ∷ d) h =
    place_event-All os e (sort_events d) h.0 (sort_events-All os d h.1)

if_events :
    (os : List Observation) (test : Bool) (p q : Progress)
    → All (IsTrusted os) p.events
    → All (IsTrusted os) q.events
    → All (IsTrusted os) (if test then p else q).events
if_events os true p q h k = h
if_events os false p q h k = k

module _ (digest : Body → List ℕ) (compose_key : String → String → String) where
  step-All :
      (os : List Observation) (o : Observation) (p : Progress)
      → In o os
      → All (IsTrusted os) p.events
      → All (IsTrusted os) (step digest compose_key o p).events
  unfolding step
  step-All os o p member h = if_events os o.legacy _ _ h (
      All-append (IsTrusted os) p.events _ h (
        own-IsTrusted os o _ member
          (compare_attempt-IsOwn digest compose_key (lookup o.route_id p.prior_by_route) o p.seen)))

  steps-All :
      (os rest : List Observation) (p : Progress)
      → All (λ o. In o os) rest
      → All (IsTrusted os) p.events
      → All (IsTrusted os) (steps digest compose_key rest p).events
  unfolding steps
  steps-All os [] p m h = h
  steps-All os (o ∷ rest) p m h =
      steps-All os rest (step digest compose_key o p) m.1 (step-All os o p m.0 h)

  -- No rejected or unverified attempt states an identity as deployed: each event of `derive_events` that
  -- says an identity is new or revisited names as its new observation one of the given ones, whose
  -- outcome is verified and which lists an identity with the event's component and value.
  pub derive_events-IsTrusted :
      (observations : List Observation) (expected : List String)
      → All (IsTrusted observations) (derive_events digest compose_key observations expected)
  unfolding derive_events
  derive_events-IsTrusted observations expected = sort_events-All observations _ (
      by_id-Every observations _ []
        (widened-All (ordered observations) observations _ (
          All-append (IsTrusted observations) _ _
            (steps-All observations (ordered observations) _
              (ordered-All (λ o. In o observations) observations (All-In observations)) tt)
            (AllQuiet-IsTrusted observations _ (coverage_events-Quiet digest compose_key _))))
        tt)
