-- ===== src/Queue/Calls.antt =====
-- probes/review_queue.py: the methods as calls of clients, one after another under the lock.
use awesome_private_inferenc.Prelude.{
  ℕ, String, ◌≡◌, refl, ap, Bool, string_eq, option_eq, Option, none, some, List, [], ◌∷◌,
}
use mathlib.Core.Path.{subst}
use awesome_private_inferenc.Prelude.Dict.{Dict}
use awesome_private_inferenc.Result.{Result, ok, err, ◌>>=◌, >>=-eq-ok, ok-injective}
use awesome_private_inferenc.Queue.Jobs.{Event, Disposition, Job, State, Error}
use awesome_private_inferenc.Queue.Store.{Disk, Decision, Method, transaction, checked, loaded}
use awesome_private_inferenc.Queue.Intake.{ingest}
use awesome_private_inferenc.Queue.Lease.{claim}
use awesome_private_inferenc.Queue.Drafts.{Draft, Reference, submit, fail, requeue}
use awesome_private_inferenc.Queue.Decisions.{
  review, review_as, disposition_named, publish, publish_body, summary, items, Item,
}
use awesome_private_inferenc.Queue.Methods.{
  Advances, Advances-refl, Advances-trans, IsGood, submit_body-IsGood, fail_body-IsGood,
  requeue_body-IsGood, review_body-IsGood, publish_body-Advances, claim_body-IsGood,
  ingest_body-IsGood,
}

-- One call, with the moment, and what the environment gives it.
pub data Call : Type 0 where
  ingests : List Event → ℕ → Call
  claims : String → ℕ → String → ℕ → Call
  submits : String → String → Draft → ℕ → Call
  fails : String → String → String → Bool → ℕ → Call
  requeues : String → String → ℕ → Call
  reviews : String → String → String → String → ℕ → Call
  publishes : String → ℕ → Call
  summarises : ℕ → Call

module _ (hash : Event → String) (inspect : String → Reference) where
  -- The files after a call, whether it returned or raised.
  unfoldable pub step : Call → Disk → Disk
  step (ingests events now) disk = (ingest hash events now disk).1
  step (claims worker seconds token now) disk = (claim worker seconds token now disk).1
  step (submits key token draft now) disk = (submit inspect key token draft now disk).1
  step (fails key token reason is_blocked now) disk = (fail key token reason is_blocked now disk).1
  step (requeues key reason now) disk = (requeue key reason now disk).1
  step (reviews key reviewer disposition rationale now) disk =
      (review key reviewer disposition rationale now disk).1
  step (publishes key now) disk = (publish key now disk).1
  step (summarises now) disk = (summary now disk).1

  unfoldable pub steps : List Call → Disk → Disk
  steps [] disk = disk
  steps (call ∷ calls) disk = steps calls (step call disk)

-- queue.json, or the state that stands for a file that is not there
abbrev pub jobs_on : Disk → Dict String Job
jobs_on disk = (loaded disk.queue).jobs

abbrev pub fresh : Disk
fresh = record { queue = none; decisions = [] }

module _ (inspect : String → Reference) where
  committed :
      {A : Type 0} (body : State → Result Error (A × State)) (disk : Disk)
      (r : Result Error (A × State))
      → body (loaded disk.queue) ≡ r
      → IsGood inspect body
      → Advances inspect (jobs_on disk) (jobs_on (transaction body disk).1)
  unfolding transaction
  committed body disk (ok (a, state)) e good = rw e (good (loaded disk.queue) state a e)
  committed body disk (err x) e good = rw e (Advances-refl inspect (jobs_on disk))

  transaction-Advances :
      {A : Type 0} (body : State → Result Error (A × State)) (disk : Disk)
      → IsGood inspect body
      → Advances inspect (jobs_on disk) (jobs_on (transaction body disk).1)
  transaction-Advances body disk = committed body disk (body (loaded disk.queue)) refl

  publish-Advances :
      (key : String) (now : ℕ) (disk : Disk) (r : Result Error (Dict String Decision × State))
      → publish_body key now (loaded disk.queue) disk.decisions ≡ r
      → Advances inspect (jobs_on disk) (jobs_on (publish key now disk).1)
  unfolding publish
  publish-Advances key now disk (ok (files, state)) e =
      rw e (publish_body-Advances inspect key now (loaded disk.queue) state disk.decisions files e)
  publish-Advances key now disk (err x) e = rw e (Advances-refl inspect (jobs_on disk))

  checked-Advances :
      {A : Type 0} (r : Result Error (Unit {0})) (m : Method A) (disk : Disk)
      → (r ≡ ok tt → Advances inspect (jobs_on disk) (jobs_on (m disk).1))
      → Advances inspect (jobs_on disk) (jobs_on (checked r m disk).1)
  unfolding checked
  checked-Advances (ok _) m disk h = h refl
  checked-Advances (err e) m disk h = Advances-refl inspect (jobs_on disk)

  review-Advances :
      (key reviewer rationale : String) (now : ℕ) (disposition : Option Disposition) (disk : Disk)
      → Advances inspect
          (jobs_on disk)
          (jobs_on (review_as key reviewer rationale now disposition disk).1)
  unfolding review_as
  review-Advances key reviewer rationale now none disk =
      unfold checked in Advances-refl inspect (jobs_on disk)
  review-Advances key reviewer rationale now (some disposition) disk =
      checked-Advances _ _ disk
        (λ _. transaction-Advances _ disk (review_body-IsGood inspect key _))

  summary_body-IsGood :
      (now : ℕ) → IsGood inspect (λ state. items now state.jobs >>= λ jobs. ok (jobs, state))
  summary_body-IsGood now state state' a h =
      let (jobs, e, r) = >>=-eq-ok (items now state.jobs) _ h in
      subst (Advances inspect state.jobs)
        (ap {A = List Item × State} (λ p. p.1.jobs) (ok-injective r))
        (Advances-refl inspect state.jobs)

module _ (hash : Event → String) (inspect : String → Reference) where
  pub step-Advances :
      (call : Call) (disk : Disk)
      → Advances inspect (jobs_on disk) (jobs_on (step hash inspect call disk))
  unfolding step ingest claim submit fail requeue review summary
  step-Advances (ingests events now) disk =
      transaction-Advances inspect _ disk (ingest_body-IsGood inspect hash events now)
  step-Advances (claims worker seconds token now) disk = checked-Advances inspect _ _ disk (λ _.
      transaction-Advances inspect _ disk (claim_body-IsGood inspect worker token seconds now))
  step-Advances (submits key token draft now) disk = checked-Advances inspect _ _ disk (λ valid.
      transaction-Advances inspect _ disk (submit_body-IsGood inspect key token draft now valid))
  step-Advances (fails key token reason is_blocked now) disk =
      checked-Advances inspect _ _ disk (λ _.
        transaction-Advances inspect _ disk
          (fail_body-IsGood inspect key token reason is_blocked now))
  step-Advances (requeues key reason now) disk =
      checked-Advances inspect _ _ disk
        (λ _. transaction-Advances inspect _ disk (requeue_body-IsGood inspect key reason now))
  step-Advances (reviews key reviewer disposition rationale now) disk =
      review-Advances inspect key reviewer rationale now (disposition_named disposition) disk
  step-Advances (publishes key now) disk =
      publish-Advances inspect key now disk
        (publish_body key now (loaded disk.queue) disk.decisions) refl
  step-Advances (summarises now) disk =
      transaction-Advances inspect _ disk (summary_body-IsGood inspect now)

  pub steps-Advances :
      (calls : List Call) (disk : Disk)
      → Advances inspect (jobs_on disk) (jobs_on (steps hash inspect calls disk))
  unfolding steps
  steps-Advances [] disk = Advances-refl inspect (jobs_on disk)
  steps-Advances (call ∷ calls) disk =
      Advances-trans inspect (jobs_on disk) (jobs_on (step hash inspect call disk))
        (jobs_on (steps hash inspect (call ∷ calls) disk)) (step-Advances call disk)
        (steps-Advances calls (step hash inspect call disk))
