-- ===== src/Queue/Methods/Bodies.antt =====
-- probes/review_queue.py: the bodies of the transactions and the jobs.
use awesome_private_inferenc.Prelude.{
  ℕ, String, ◌≡◌, refl, sym, ap, Bool, true, false, ◌==◌, string_eq, option_eq, Option, none, some,
  List, [], ◌∷◌, arith, &&-eq-true,
}
use mathlib.Core.Path.{subst}
use awesome_private_inferenc.Prelude.Dict.{
  Dict, lookup, insert, Distinct, Distinct-insert, Distinct-of_keys,
}
use awesome_private_inferenc.Result.{Result, ok, >>=-eq-ok, ok-injective, present, require}
use awesome_private_inferenc.Queue.Jobs.{
  Event, Review, Job, State, Error, key_error, draft_ready, status_eq, status_beq_iff,
  not_requeueable, not_a_distinct_review, not_reviewed,
}
use awesome_private_inferenc.Queue.Store.{Decision}
use awesome_private_inferenc.Queue.Intake.{
  new_job, admit, ingest_event, ingest_all, ingest_body, event_key,
}
use awesome_private_inferenc.Queue.Lease.{
  claim_body, hand_out, first_candidate, expire_all, check_lease,
}
use awesome_private_inferenc.Queue.Drafts.{
  Draft, Reference, check_draft, submit_body, fail_body, requeue_body,
}
use awesome_private_inferenc.Queue.Decisions.{
  review_body, publish_body, decision_of, write_decision,
}
use awesome_private_inferenc.Queue.Moves.{
  Move, leases, drafts, fails, requeues, reviews, publishes, still, on, Follows, taken_in, moved,
  Tracks, Tracks-refl, Tracks-trans, Tracks-insert,
}
use awesome_private_inferenc.Queue.Methods.Claims.{expire_all-Tracks, first_candidate_sound}

-- A dict of jobs, and one that follows from it: still one entry for each key, each job moved on.
pub record Advances (inspect : String → Reference) (before after : Dict String Job) : Type 0 where
  pub distinct : Distinct before → Distinct after
  pub tracks : Distinct before → Tracks inspect before after

module _ (inspect : String → Reference) where
  pub Advances-refl : (d : Dict String Job) → Advances inspect d d
  Advances-refl d = record { distinct = λ h. h; tracks = λ _. Tracks-refl inspect d }

  pub Advances-trans :
      (a b c : Dict String Job) → Advances inspect a b → Advances inspect b c → Advances inspect a c
  Advances-trans a b c r s = record {
    distinct = λ h. s.distinct (r.distinct h);
    tracks = λ h. Tracks-trans inspect a b c (r.tracks h) (s.tracks (r.distinct h));
  }

  -- A job that is read under its key, moved, and written back.
  Advances-Move :
      (d : Dict String Job) (key : String) {a b : Job}
      → lookup key d ≡ some a
      → Move inspect key a b
      → Advances inspect d (insert key b d)
  Advances-Move d key {a} {b} found m = record {
    distinct = λ h. Distinct-insert key b d h;
    tracks = λ _.
        Tracks-insert inspect key b d
          (subst (λ o. Follows inspect key o (some b)) (sym found) (moved (on still m)));
  }

  Advances-new :
      (d : Dict String Job) (key : String) (event : Event) (now : ℕ)
      → lookup key d ≡ none
      → Advances inspect d (insert key (new_job key event now) d)
  Advances-new d key event now new = record {
    distinct = λ h. Distinct-insert key _ d h;
    tracks = λ _. Tracks-insert inspect key _ d (
        subst (λ o. Follows inspect key o (some (new_job key event now))) (sym new)
          (taken_in event now still));
  }

-- The body of a transaction lets the jobs only advance, if it returns.
abbrev pub IsGood :
    {A : Type 0} → (String → Reference) → (State → Result Error (A × State)) → Type 0
IsGood {A = A} inspect body =
    (state state' : State) (a : A)
    → body state ≡ ok (a, state')
    → Advances inspect state.jobs state'.jobs

-- `state["jobs"][key]`, if it does not raise
pub found_at :
    (key : String) (jobs : Dict String Job) {job : Job}
    → present key_error (lookup key jobs) ≡ ok job
    → lookup key jobs ≡ some job
found_at key jobs h = ground arith

pub holds : (e : Error) (b : Bool) {u : Unit {0}} → require b e ≡ ok u → b ≡ true
holds e true h = refl
holds e false h = cc

-- Of what a body returns, the jobs.
pub jobs_of :
    {A : Type 0} {a b : A} {s t : State}
    → ◌≡◌ {A = Result Error (A × State)} (ok (a, s)) (ok (b, t))
    → s.jobs ≡ t.jobs
jobs_of {A} h = ap {A = A × State} (λ p. p.1.jobs) (ok-injective h)

module _ (inspect : String → Reference) where
  pub submit_body-IsGood :
      (key token : String) (draft : Draft) (now : ℕ)
      → check_draft inspect key draft ≡ ok tt
      → IsGood inspect (submit_body key token draft now)
  unfolding submit_body
  submit_body-IsGood key token draft now valid state state' a h =
      let (job, e, r) = >>=-eq-ok (present key_error (lookup key state.jobs)) _ h in
      let (_, leased, s) = >>=-eq-ok (check_lease job token now) _ r in
      let (worker, w, t) = >>=-eq-ok (present key_error job.worker) _ s in
      subst (Advances inspect state.jobs) (jobs_of t) (
        Advances-Move inspect state.jobs key (found_at key state.jobs e)
          (drafts token draft worker now valid leased (ground arith)))

  pub fail_body-IsGood :
      (key token reason : String) (is_blocked : Bool) (now : ℕ)
      → IsGood inspect (fail_body key token reason is_blocked now)
  unfolding fail_body
  fail_body-IsGood key token reason is_blocked now state state' a h =
      let (job, e, r) = >>=-eq-ok (present key_error (lookup key state.jobs)) _ h in
      let (_, leased, s) = >>=-eq-ok (check_lease job token now) _ r in
      subst (Advances inspect state.jobs) (jobs_of s) (
        Advances-Move inspect state.jobs key (found_at key state.jobs e)
          (fails token reason is_blocked now leased))

  pub requeue_body-IsGood :
      (key reason : String) (now : ℕ) → IsGood inspect (requeue_body key reason now)
  unfolding requeue_body
  requeue_body-IsGood key reason now state state' a h =
      let (job, e, r) = >>=-eq-ok (present key_error (lookup key state.jobs)) _ h in
      let (_, waits, s) = >>=-eq-ok (require _ not_requeueable) _ r in
      subst (Advances inspect state.jobs) (jobs_of s) (
        Advances-Move inspect state.jobs key (found_at key state.jobs e)
          (requeues reason now (holds not_requeueable _ waits)))

  pub review_body-IsGood :
      (key : String) (review : Review) → IsGood inspect (review_body key review)
  unfolding review_body
  review_body-IsGood key review state state' a h =
      let (job, e, r) = >>=-eq-ok (present key_error (lookup key state.jobs)) _ h in
      let (_, fits, s) = >>=-eq-ok (require _ not_a_distinct_review) _ r in
      let (ready, other) =
        &&-eq-true (job.status == draft_ready) (holds not_a_distinct_review _ fits) in
      subst (Advances inspect state.jobs) (jobs_of s) (
        Advances-Move inspect state.jobs key (found_at key state.jobs e)
          (reviews review ((status_beq_iff job.status draft_ready).0 ready) (ground arith)))

  pub publish_body-Advances :
      (key : String) (now : ℕ) (state state' : State) (files files' : Dict String Decision)
      → publish_body key now state files ≡ ok (files', state')
      → Advances inspect state.jobs state'.jobs
  unfolding publish_body
  publish_body-Advances key now state state' files files' h =
      let (job, e, r) = >>=-eq-ok (present key_error (lookup key state.jobs)) _ h in
      let (_, done, s) = >>=-eq-ok (require _ not_reviewed) _ r in
      let (decision, d, t) = >>=-eq-ok (decision_of job) _ s in
      let (written, w, u) = >>=-eq-ok (write_decision key decision files (lookup key files)) _ t in
      subst (Advances inspect state.jobs) (jobs_of u) (
        Advances-Move inspect state.jobs key (found_at key state.jobs e)
          (publishes now (holds not_reviewed _ done)))

  hand_out-Advances :
      (worker token : String) (seconds now : ℕ) (state : State) (jobs : Dict String Job)
      (chosen : Option (String × Job))
      → first_candidate jobs ≡ chosen
      → Advances inspect jobs (hand_out worker seconds token now state jobs chosen).1.jobs
  unfolding hand_out
  hand_out-Advances worker token seconds now state jobs none e = Advances-refl inspect jobs
  hand_out-Advances worker token seconds now state jobs (some (key, job)) e = record {
    distinct = λ d. Distinct-insert key _ jobs d;
    tracks = λ d.
        let (found, waits, _) = first_candidate_sound jobs d e in
        (Advances-Move inspect jobs key found (leases worker token seconds now waits)).tracks d;
  }

  pub claim_body-IsGood :
      (worker token : String) (seconds now : ℕ)
      → IsGood inspect (claim_body worker seconds token now)
  unfolding claim_body
  claim_body-IsGood worker token seconds now state state' a h =
      let (jobs, e, r) = >>=-eq-ok (expire_all now state.jobs) _ h in
      let (same, tracks) = expire_all-Tracks inspect now state.jobs jobs e in
      let expired : Advances inspect state.jobs jobs = record {
        distinct = λ d. Distinct-of_keys state.jobs jobs same d;
        tracks = λ _. tracks;
      } in
      let written : (hand_out worker seconds token now state jobs (first_candidate jobs)).1.jobs
          ≡ state'.jobs =
        ap {A = Option Job × State} (λ p. p.1.jobs) (ok-injective r) in
      Advances-trans inspect state.jobs jobs state'.jobs expired (
        subst (Advances inspect jobs) written
          (hand_out-Advances worker token seconds now state jobs (first_candidate jobs) refl))

  admit-Advances :
      (now : ℕ) (key : String) (event : Event) (known : Option Job) (state state' : State)
      (added added' : ℕ)
      → lookup key state.jobs ≡ known
      → admit now key event known (state, added) ≡ ok (state', added')
      → Advances inspect state.jobs state'.jobs
  unfolding admit
  admit-Advances now key event none state state' added added' new h =
      subst (Advances inspect state.jobs) (ap {A = State × ℕ} (λ p. p.0.jobs) (ok-injective h))
        (Advances-new inspect state.jobs key event now new)
  admit-Advances now key event (some job) state state' added added' old h =
      let unchanged : state.jobs ≡ state'.jobs = ground arith in
      subst (Advances inspect state.jobs) unchanged (Advances-refl inspect state.jobs)

  ingest_event-Advances :
      (hash : Event → String) (now : ℕ) (event : Event) (state state' : State) (added added' : ℕ)
      → ingest_event hash now event (state, added) ≡ ok (state', added')
      → Advances inspect state.jobs state'.jobs
  unfolding ingest_event
  ingest_event-Advances hash now event state state' added added' h =
      let (key, e, r) = >>=-eq-ok (event_key hash event) _ h in
      admit-Advances now key _ (lookup key state.jobs) state state' added added' refl r

  ingest_all-Advances :
      (hash : Event → String) (now : ℕ) (events : List Event) (state state' : State)
      (added added' : ℕ)
      → ingest_all hash now events (state, added) ≡ ok (state', added')
      → Advances inspect state.jobs state'.jobs
  unfolding ingest_all
  ingest_all-Advances hash now [] state state' added added' h =
      subst (Advances inspect state.jobs) (ap {A = State × ℕ} (λ p. p.0.jobs) (ok-injective h))
        (Advances-refl inspect state.jobs)
  ingest_all-Advances hash now (event ∷ events) state state' added added' h =
      let ((mid, n), e, r) = >>=-eq-ok (ingest_event hash now event (state, added)) _ h in
      Advances-trans inspect state.jobs mid.jobs state'.jobs
        (ingest_event-Advances hash now event state mid added n e)
        (ingest_all-Advances hash now events mid state' n added' r)

  pub ingest_body-IsGood :
      (hash : Event → String) (events : List Event) (now : ℕ)
      → IsGood inspect (ingest_body hash events now)
  unfolding ingest_body
  ingest_body-IsGood hash events now state state' a h =
      let ((mid, n), e, r) = >>=-eq-ok (ingest_all hash now events (state, 0)) _ h in
      subst (Advances inspect state.jobs) (ap {A = ℕ × State} (λ p. p.1.jobs) (ok-injective r))
        (ingest_all-Advances hash now events state mid 0 n e)
