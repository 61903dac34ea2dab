-- ===== src/Queue/Replay.antt =====
-- probes/review_queue.py: ingesting events again, and the decision files.
use awesome_private_inferenc.Prelude.{
  ℕ, String, ◌≡◌, refl, true, string_eq, option_eq, Option, none, some, List, [], ◌∷◌, All, arith,
  ap, eq_iff, beq_refl, list_eq, pair_eq,
}
use mathlib.Core.Path.{subst}
use awesome_private_inferenc.Json.{str, json_eq}
use awesome_private_inferenc.Prelude.Dict.{Dict, lookup, lookup-insert}
use awesome_private_inferenc.Result.{ok, >>=-eq-ok, ok-injective}
use awesome_private_inferenc.Queue.Jobs.{Event, Job, State, transition, status_eq}
use awesome_private_inferenc.Queue.Intake.{
  same_event, new_job, admit, event_key, ingest_event, ingest_all, ingest_body,
}

module _ (hash : Event → String) where
  abbrev named : Event → String → Event
  named event key = record event { event_id = some (str key) }

  -- The event has a job, which holds the same event.
  abbrev pub Known : State → Event → Type 0
  Known state event =
      (key : String) × (job : Job) × (event_key hash event ≡ ok key)
      × (lookup key state.jobs ≡ some job)
      × (same_event job.event (named event key) ≡ true)

  same_event_refl : (e : Event) → same_event e e ≡ true
  same_event_refl e = rw (beq_refl e.event_id, beq_refl e.priority, beq_refl e.others) refl

  admit-known :
      (now : ℕ) (key : String) (event : Event) (known : Option Job) (state state' : State)
      (added added' : ℕ)
      → lookup key state.jobs ≡ known
      → admit now key event known (state, added) ≡ ok (state', added')
      → (job : Job) × (lookup key state'.jobs ≡ some job) × (same_event job.event event ≡ true)
  unfolding admit new_job transition
  admit-known now key event none state state' added added' new h = (
    new_job key event now,
    subst (λ d. lookup key d ≡ some (new_job key event now))
        (ap {A = State × ℕ} (λ p. p.0.jobs) (ok-injective h))
        (rw lookup-insert (rw (beq_refl key) refl)),
    same_event_refl event,
  )
  admit-known now key event (some job) state state' added added' old h =
      let unchanged : state.jobs ≡ state'.jobs = ground arith in
      (job, subst (λ d. lookup key d ≡ some job) unchanged old, ground arith)

  admit_keeps :
      (now : ℕ) (key : String) (event : Event) (known : Option Job) (state state' : State)
      (added added' : ℕ)
      → lookup key state.jobs ≡ known
      → admit now key event known (state, added) ≡ ok (state', added')
      → (k : String) (job : Job) → lookup k state.jobs ≡ some job
      → lookup k state'.jobs ≡ some job
  unfolding admit
  admit_keeps now key event none state state' added added' new h k job found =
      subst (λ d. lookup k d ≡ some job) (ap {A = State × ℕ} (λ p. p.0.jobs) (ok-injective h))
        (rw lookup-insert (ground (arith, eq_iff key k)))
  admit_keeps now key event (some j) state state' added added' old h k job found =
      let unchanged : state.jobs ≡ state'.jobs = ground arith in
      subst (λ d. lookup k d ≡ some job) unchanged found

  ingest_all_keeps :
      (now : ℕ) (events : List Event) (state state' : State) (added added' : ℕ)
      → ingest_all hash now events (state, added) ≡ ok (state', added')
      → (k : String) (job : Job) → lookup k state.jobs ≡ some job
      → lookup k state'.jobs ≡ some job
  unfolding ingest_all ingest_event
  ingest_all_keeps now [] state state' added added' h k job found =
      subst (λ d. lookup k d ≡ some job) (ap {A = State × ℕ} (λ p. p.0.jobs) (ok-injective h)) found
  ingest_all_keeps now (event ∷ events) state state' added added' h k job found =
      let ((mid, n), f, r) = >>=-eq-ok (ingest_event hash now event (state, added)) _ h in
      let (key, g, s) = >>=-eq-ok (event_key hash event) _ f in
      ingest_all_keeps now events mid state' n added' r k job
        (admit_keeps now key _ (lookup key state.jobs) state mid added n refl s k job found)

  ingest_all-Known :
      (now : ℕ) (events : List Event) (state state' : State) (added added' : ℕ)
      → ingest_all hash now events (state, added) ≡ ok (state', added')
      → All (Known state') events
  unfolding ingest_all ingest_event
  ingest_all-Known now [] state state' added added' h = tt
  ingest_all-Known now (event ∷ events) state state' added added' h =
      let ((mid, n), f, r) = >>=-eq-ok (ingest_event hash now event (state, added)) _ h in
      let (key, g, s) = >>=-eq-ok (event_key hash event) _ f in
      let (job, found, same) =
        admit-known now key (named event key) (lookup key state.jobs) state mid added n refl s in
      (
        (key, job, g, ingest_all_keeps now events mid state' n added' r key job found, same),
        ingest_all-Known now events mid state' n added' r,
      )

  ingest-Known :
      (now : ℕ) (events : List Event) (state : State) (added : ℕ)
      → All (Known state) events
      → ingest_all hash now events (state, added) ≡ ok (state, added)
  unfolding ingest_all ingest_event admit
  ingest-Known now [] state added h = refl
  ingest-Known now (event ∷ events) state added ((key, job, e, found, same), rest) =
      rw (e, found, same) (ingest-Known now events state added rest)

  -- Ingesting is idempotent: if some events were taken in, then ingesting the same events again, at
  -- any time, returns 0 and changes only the time of the last ingestion.
  pub ingest-ingest :
      (events : List Event) (now later : ℕ) (state state' : State) (added : ℕ)
      → ingest_body hash events now state ≡ ok (added, state')
      → ingest_body hash events later state' ≡ ok (0, record state' { last_ingest_at = some later })
  unfolding ingest_body
  ingest-ingest events now later state state' added h =
      let ((mid, n), e, r) = >>=-eq-ok (ingest_all hash now events (state, 0)) _ h in
      let same : mid.jobs ≡ state'.jobs = ap {A = ℕ × State} (λ p. p.1.jobs) (ok-injective r) in
      let known : All (Known state') events =
        subst (λ (d : Dict String Job). All (Known (record state' { jobs = d })) events) same
          (move_known mid (record state' { jobs = mid.jobs }) refl events
            (ingest_all-Known now events state mid 0 n e)) in
      rw (ingest-Known later events state' 0 known) refl
    where
      move_known :
          (s t : State) → s.jobs ≡ t.jobs → (es : List Event) → All (Known s) es → All (Known t) es
      move_known s t same [] k = tt
      move_known s t same (e ∷ es) ((key, job, a, b, c), rest) = (
        (key, job, a, subst (λ d. lookup key d ≡ some job) same b, c),
        move_known s t same es rest,
      )
