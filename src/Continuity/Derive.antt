-- ===== src/Continuity/Derive.antt =====
-- probes/continuity.py: `derive_events`.
use awesome_private_inferenc.Prelude.{
  ℕ, String, Bool, false, ◌&&◌, ◌||◌, not, Option, none, some, List, [], ◌∷◌, ◌++◌, if◌then◌else◌,
  ◌==◌, string_eq, nat_eq, list_eq, pair_eq, contains, nat_beq,
}
use awesome_private_inferenc.Prelude.Dict.{Dict, lookup, insert, keys}
use awesome_private_inferenc.Prelude.Text.{codes, codes_le, text_le, sort_texts}
use awesome_private_inferenc.Json.{str}
use awesome_private_inferenc.Continuity.{
  Identity, Observation, coverage_unknown, high, Body, Event, no_change, event, policy_decisions,
}
use awesome_private_inferenc.Continuity.Compare.{
  Sighting, sighting, is_verified, prior_ids, retirement, since_prior, first_mismatches,
  missing_identities, identity_changes, add_sighting,
}

-- the variables of the loop
pub record Progress : Type 0 where
  pub prior_by_route : Dict String Observation
  pub seen : List Sighting
  pub events : List Event

-- `a <= b` for `key=lambda x: (x["captured_at"], x["observation_id"])`
abbrev pub comes_before : Observation → Observation → Bool
comes_before a b =
    if a.captured_at == b.captured_at
    then text_le a.observation_id b.observation_id
    else text_le a.captured_at b.captured_at

-- `sorted`, which is stable
unfoldable pub place : Observation → List Observation → List Observation
place o [] = o ∷ []
place o (p ∷ ps) = if comes_before o p then o ∷ p ∷ ps else p ∷ place o ps

unfoldable pub ordered : List Observation → List Observation
ordered [] = []
ordered (o ∷ os) = place o (ordered os)

-- `seen.update(...)`
unfoldable pub see_all : List Identity → List Sighting → List Sighting
see_all [] seen = seen
see_all (i ∷ is) seen = see_all is (add_sighting (sighting i) seen)

-- `set(expected_routes) - prior_by_route.keys()`
unfoldable pub unattempted : List String → Dict String Observation → List String
unattempted [] attempts = []
unattempted (r ∷ rs) attempts =
    let rest = unattempted rs attempts in
    if contains r (keys attempts) || contains r rest then rest else r ∷ rest

module _ (digest : Body → List ℕ) (compose_key : String → String → String) where
  abbrev pub mismatches_if_first : Option Observation → Observation → List Event
  mismatches_if_first none obs =
      if is_verified obs
      then first_mismatches digest compose_key obs (policy_decisions compose_key obs)
      else []
  mismatches_if_first (some prior) obs = []

  abbrev pub missing_if_trusted : Option Observation → Observation → List Event
  missing_if_trusted none obs = []
  missing_if_trusted (some prior) obs =
      if is_verified prior && is_verified obs
      then missing_identities digest compose_key prior obs (prior_ids (some prior))
      else []

  -- the body of the loop, for an attempt that was not imported
  unfoldable pub compare_attempt :
      Option Observation → Observation → List Sighting → List Event × List Sighting
  compare_attempt prior obs seen =
      let identities = identity_changes digest compose_key prior obs obs.identities seen in
      (
        retirement digest compose_key prior obs
            ++ (since_prior digest compose_key prior obs
                ++ (mismatches_if_first prior obs
                    ++ (missing_if_trusted prior obs ++ identities.0))),
        identities.1,
      )

  unfoldable pub step : Observation → Progress → Progress
  step obs p =
      let prior = lookup obs.route_id p.prior_by_route in
      let compared = compare_attempt prior obs p.seen in
      let attempted = insert obs.route_id obs p.prior_by_route in
      if obs.legacy
      then record {
        prior_by_route = attempted;
        seen = if is_verified obs then see_all obs.identities p.seen else p.seen;
        events = p.events;
      }
      else record { prior_by_route = attempted; seen = compared.1; events = p.events ++ compared.0 }

  unfoldable pub steps : List Observation → Progress → Progress
  steps [] p = p
  steps (o ∷ os) p = steps os (step o p)

  unfoldable pub coverage_events : List String → List Event
  coverage_events [] = []
  coverage_events (route ∷ routes) =
      event digest coverage_unknown route none none
        (record no_change { new_value = str "no recorded attempt" }) "unknown" high
      ∷ coverage_events routes

-- `new_id.split("/")[0]`
unfoldable pub run_of : List ℕ → List ℕ
run_of [] = []
run_of (c ∷ cs) = if nat_beq c 47 then [] else c ∷ run_of cs

abbrev pub has_component : String → List Identity → Bool
has_component component [] = false
has_component component (i ∷ is) = i.component_id == component || has_component component is

-- the routes that have a component in a run
unfoldable pub routes_with : List ℕ → String → List Observation → List String
routes_with run component [] = []
routes_with run component (o ∷ os) =
    let rest = routes_with run component os in
    if codes o.run_id == run
      && (has_component component o.identities && not (contains o.route_id rest))
    then o.route_id ∷ rest
    else rest

abbrev pub with_routes : Event → List String → Event
with_routes e [] = e
with_routes e (r ∷ rs) = record e { affected_routes = sort_texts (r ∷ rs) }

abbrev pub affected : List Observation → Event → Option String → Option String → Event
affected os e (some new_id) (some component) =
    with_routes e (routes_with (run_of (codes new_id)) component os)
affected os e new_id component = e

-- `event["affected_routes"] = ...`
unfoldable pub widened : List Observation → List Event → List Event
widened os [] = []
widened os (e ∷ es) = affected os e e.body.new_observation_id e.body.component_id ∷ widened os es

-- `{event["event_id"]: event for event in events}`
unfoldable pub by_id : List Event → Dict (List ℕ) Event → Dict (List ℕ) Event
by_id [] d = d
by_id (e ∷ es) d = by_id es (insert e.event_id e d)

abbrev or_blank : Option String → String
or_blank none = ""
or_blank (some s) = s

-- `a <= b` for `key=lambda x: (x["first_seen_at"] or "", x["event_id"])`
abbrev pub is_before : Event → Event → Bool
is_before a b =
    if or_blank a.seen_at == or_blank b.seen_at
    then codes_le a.event_id b.event_id
    else text_le (or_blank a.seen_at) (or_blank b.seen_at)

unfoldable pub place_event : Event → List Event → List Event
place_event e [] = e ∷ []
place_event e (f ∷ fs) = if is_before e f then e ∷ f ∷ fs else f ∷ place_event e fs

unfoldable pub sort_events : Dict (List ℕ) Event → List Event
sort_events [] = []
sort_events ((k, e) ∷ rest) = place_event e (sort_events rest)

-- `derive_events`
unfoldable pub derive_events :
    (Body → List ℕ) → (String → String → String) → List Observation → List String → List Event
derive_events digest compose_key observations expected =
    let sorted = ordered observations in
    let last =
      steps digest compose_key sorted (record { prior_by_route = []; seen = []; events = [] }) in
    let unknown =
      coverage_events digest compose_key (sort_texts (unattempted expected last.prior_by_route)) in
    sort_events (by_id (widened sorted (last.events ++ unknown)) [])
