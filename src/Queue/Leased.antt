-- ===== src/Queue/Leased.antt =====
-- probes/review_queue.py: a held lease and the calls of others, for sequences of calls.
use awesome_private_inferenc.Prelude.{
  ℕ, String, ◌≡◌, refl, string_eq, Option, none, some, List, [], ◌∷◌, All, ap, sym,
}
use mathlib.Core.Path.{subst}
use awesome_private_inferenc.Prelude.Dict.{Dict, lookup, Distinct}
use awesome_private_inferenc.Result.{Result, ok, err, ◌>>=◌, >>=-eq-ok, ok-injective}
use awesome_private_inferenc.Queue.Jobs.{running, Event, Disposition, Job, State, Error}
use awesome_private_inferenc.Queue.Store.{
  Disk, Decision, Method, transaction, checked, loaded, commit,
}
use awesome_private_inferenc.Queue.Intake.{ingest}
use awesome_private_inferenc.Queue.Lease.{claim}
use awesome_private_inferenc.Queue.Drafts.{Reference, submit, fail, requeue}
use awesome_private_inferenc.Queue.Decisions.{
  review_as, review, disposition_named, publish_body, publish, commit_both, items, Item, summary,
}
use awesome_private_inferenc.Queue.Exclusive.{
  Spares, Frames, submit_body-Frames, fail_body-Frames, requeue_body-Frames, review_body-Frames,
  publish_body-Frames, claim_body-Frames, ingest_body-Frames,
}
use awesome_private_inferenc.Queue.Calls.{
  Call, ingests, claims, submits, fails, requeues, reviews, publishes, summarises, step, steps,
  jobs_on, step-Advances,
}

module _ (key : String) (job : Job) (token : String) (until : ℕ) (at : job.status ≡ running)
    (held : job.lease_token ≡ some token) (ends : job.lease_until ≡ some until) where
  abbrev Holds : Disk → Type 0
  Holds disk = lookup key (jobs_on disk) ≡ some job

  committed-Frames :
      {A : Type 0} (body : State → Result Error (A × State)) (disk : Disk)
      (r : Result Error (A × State))
      → body (loaded disk.queue) ≡ r
      → Frames key job token until at held ends body
      → Distinct (jobs_on disk)
      → Holds disk
      → Holds (transaction body disk).1
  unfolding transaction
  committed-Frames body disk (ok (a, state)) e frames d h =
      subst (λ r. Holds (commit disk r).1) (sym e) (frames (loaded disk.queue) state a d h e)
  committed-Frames body disk (err x) e frames d h = subst (λ r. Holds (commit disk r).1) (sym e) h

  transaction-Frames :
      {A : Type 0} (body : State → Result Error (A × State)) (disk : Disk)
      → Frames key job token until at held ends body
      → Distinct (jobs_on disk)
      → Holds disk
      → Holds (transaction body disk).1
  transaction-Frames body disk = committed-Frames body disk (body (loaded disk.queue)) refl

  checked-Frames :
      {A : Type 0} (r : Result Error (Unit {0})) (m : Method A) (disk : Disk)
      → Holds disk
      → Holds (m disk).1
      → Holds (checked r m disk).1
  unfolding checked
  checked-Frames (ok _) m disk h k = k
  checked-Frames (err e) m disk h k = h

  publish-Frames :
      (k : String) (now : ℕ) (disk : Disk) (r : Result Error (Dict String Decision × State))
      → publish_body k now (loaded disk.queue) disk.decisions ≡ r
      → Holds disk
      → Holds (publish k now disk).1
  unfolding publish
  publish-Frames k now disk (ok (files, state)) e h =
      subst (λ r. Holds (commit_both disk r).1) (sym e)
        (publish_body-Frames key job token until at held ends k now disk.decisions
          (loaded disk.queue) state files h e)
  publish-Frames k now disk (err x) e h = subst (λ r. Holds (commit_both disk r).1) (sym e) h

  review-Frames :
      (k reviewer rationale : String) (now : ℕ) (disposition : Option Disposition) (disk : Disk)
      → Distinct (jobs_on disk)
      → Holds disk
      → Holds (review_as k reviewer rationale now disposition disk).1
  unfolding review_as
  review-Frames k reviewer rationale now none disk d h = unfold checked in h
  review-Frames k reviewer rationale now (some disposition) disk d h =
      checked-Frames _ _ disk h
        (transaction-Frames _ disk (review_body-Frames key job token until at held ends k _) d h)

  summary-Frames :
      (now : ℕ)
      → Frames key job token until at held ends
          (λ state. items now state.jobs >>= λ jobs. ok (jobs, state))
  summary-Frames now state state' a d h e =
      let (jobs, f, r) = >>=-eq-ok (items now state.jobs) _ e in
      subst (λ x. lookup key x ≡ some job)
        (ap {A = List Item × State} (λ p. p.1.jobs) (ok-injective r)) h

  module _ (hash : Event → String) (inspect : String → Reference) where
    -- While a job is running under a token, a call that spares the lease leaves the job under its
    -- key as it is.
    step-Frames :
        (call : Call) (disk : Disk)
        → Spares key token until call
        → Distinct (jobs_on disk)
        → Holds disk
        → Holds (step hash inspect call disk)
    unfolding step ingest claim submit fail requeue review summary
    step-Frames (ingests events now) disk spared d h =
        transaction-Frames _ disk
          (ingest_body-Frames key job token until at held ends hash events now) d h
    step-Frames (claims worker seconds t now) disk spared d h = checked-Frames _ _ disk h (
        transaction-Frames _ disk
          (claim_body-Frames key job token until at held ends worker t seconds now spared inspect) d
          h)
    step-Frames (submits k t draft now) disk spared d h = checked-Frames _ _ disk h (
        transaction-Frames _ disk
          (submit_body-Frames key job token until at held ends k t draft now spared) d h)
    step-Frames (fails k t reason is_blocked now) disk spared d h = checked-Frames _ _ disk h (
        transaction-Frames _ disk
          (fail_body-Frames key job token until at held ends k t reason is_blocked now spared) d h)
    step-Frames (requeues k reason now) disk spared d h = checked-Frames _ _ disk h (
        transaction-Frames _ disk
          (requeue_body-Frames key job token until at held ends k reason now) d h)
    step-Frames (reviews k reviewer disposition rationale now) disk spared d h =
        review-Frames k reviewer rationale now (disposition_named disposition) disk d h
    step-Frames (publishes k now) disk spared d h =
        publish-Frames k now disk (publish_body k now (loaded disk.queue) disk.decisions) refl h
    step-Frames (summarises now) disk spared d h =
        transaction-Frames _ disk (summary-Frames now) d h

    -- A lease is exclusive: from any files whose dict of jobs holds each key once, a running job with a token and a deadline is the same record after any
    -- calls none of which claims at or after the deadline, or submits or fails that job with that
    -- token. The calls may be of any number of workers, in any order, returning or raising.
    pub lease_exclusive :
        (calls : List Call) (disk : Disk)
        → All (Spares key token until) calls
        → Distinct (jobs_on disk)
        → lookup key (jobs_on disk) ≡ some job
        → lookup key (jobs_on (steps hash inspect calls disk)) ≡ some job
    unfolding steps
    lease_exclusive [] disk spared d h = h
    lease_exclusive (call ∷ calls) disk spared d h =
        lease_exclusive calls (step hash inspect call disk) spared.1
          ((step-Advances hash inspect call disk).distinct d) (step-Frames call disk spared.0 d h)
