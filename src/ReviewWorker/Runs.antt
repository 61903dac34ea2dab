-- ===== src/ReviewWorker/Runs.antt =====
-- probes/review_worker.py: a run of the worker as calls of the queue.
use awesome_private_inferenc.Prelude.{
  ℕ, String, ◌≡◌, refl, ap, ◌∙◌, Bool, true, false, Option, none, some, List, [], ◌∷◌, ◌≤◌, ◌+◌,
  length, All, arith, if◌then◌else◌, ltb, nat_beq, Bool-cases, inl, inr,
}
use awesome_private_inferenc.Result.{Result, ok, err}
use awesome_private_inferenc.Queue.Jobs.{Event, Job, State, Error}
use awesome_private_inferenc.Queue.Store.{Disk, transaction, checked, commit, loaded}
use awesome_private_inferenc.Queue.Intake.{ingest}
use awesome_private_inferenc.Queue.Lease.{claim, token_or_empty}
use awesome_private_inferenc.Queue.Drafts.{Reference, fail}
use awesome_private_inferenc.Queue.Decisions.{summary}
use awesome_private_inferenc.Queue.Calls.{
  Call, ingests, claims, fails, summarises, submits, requeues, reviews, publishes, step, steps,
}
use awesome_private_inferenc.ReviewWorker.{
  Launch, exited, not_launched, Fault, no_fault, before_write, after_write, handled, refused,
  dispatcher_exit, Options, Environment, worker_name, after, give_up, launched, with_job, main,
}

-- The calls that the worker makes: it takes events in, claims, gives up and lists, and never submits a
-- draft, requeues, reviews or publishes.
abbrev pub IsWorkerCall : Call → Type 0
IsWorkerCall (ingests events now) = Unit
IsWorkerCall (claims worker seconds token now) = Unit
IsWorkerCall (fails key token reason is_blocked now) = Unit
IsWorkerCall (summarises now) = Unit
IsWorkerCall _ = ⊥

transaction-decisions :
    {A : Type 0} (body : State → Result Error (A × State)) (disk : Disk)
    → (transaction body disk).1.decisions ≡ disk.decisions
unfolding transaction
transaction-decisions {A} body disk = of (body (loaded disk.queue))
  where
    of : (r : Result Error (A × State)) → (commit disk r).1.decisions ≡ disk.decisions
    of (ok a) = refl
    of (err e) = refl

checked-decisions :
    {A : Type 0} (test : Result Error (Unit {0})) (body : State → Result Error (A × State))
    (disk : Disk)
    → (checked test (transaction body) disk).1.decisions ≡ disk.decisions
unfolding checked
checked-decisions (ok u) body disk = transaction-decisions body disk
checked-decisions (err e) body disk = refl

module _ (hash : Event → String) (inspect : String → Reference) where
  step-decisions :
      (call : Call) (disk : Disk)
      → IsWorkerCall call
      → (step hash inspect call disk).decisions ≡ disk.decisions
  unfolding step ingest claim fail summary
  step-decisions (ingests events now) disk h = transaction-decisions _ disk
  step-decisions (claims worker seconds token now) disk h = checked-decisions _ _ disk
  step-decisions (fails key token reason is_blocked now) disk h = checked-decisions _ _ disk
  step-decisions (summarises now) disk h = transaction-decisions _ disk
  step-decisions (submits _ _ _ _) disk h = absurd h
  step-decisions (requeues _ _ _) disk h = absurd h
  step-decisions (reviews _ _ _ _ _) disk h = absurd h
  step-decisions (publishes _ _) disk h = absurd h

  steps-decisions :
      (calls : List Call) (disk : Disk)
      → All IsWorkerCall calls
      → (steps hash inspect calls disk).decisions ≡ disk.decisions
  unfolding steps
  steps-decisions [] disk h = refl
  steps-decisions (call ∷ calls) disk h =
      steps-decisions calls (step hash inspect call disk) h.1 ∙ step-decisions call disk h.0

  -- Files that some calls of the worker, at most so many, lead to.
  pub record IsRun (most : ℕ) (disk disk' : Disk) : Type 0 where
    pub calls : List Call
    pub same : disk' ≡ steps hash inspect calls disk
    pub few : length calls ≤ most
    pub own : All IsWorkerCall calls

  no_calls : (most : ℕ) (disk : Disk) → IsRun most disk disk
  unfolding steps
  no_calls most disk = record { calls = []; same = refl; few = omega arith; own = tt }

  more : (most : ℕ) (disk disk' : Disk) → IsRun most disk disk' → IsRun (most + 1) disk disk'
  more most disk disk' run = record {
    calls = run.calls;
    same = run.same;
    few = omega (arith, run.few);
    own = run.own;
  }

  one_call :
      (most : ℕ) (call : Call) (disk last : Disk)
      → IsWorkerCall call
      → IsRun most (step hash inspect call disk) last
      → IsRun (most + 1) disk last
  unfolding steps
  one_call most call disk last h run = record {
    calls = call ∷ run.calls;
    same = run.same;
    few = omega (arith, run.few);
    own = (h, run.own);
  }

  -- after a method call, in both of its outcomes
  after-IsRun :
      {A B : Type 0} (most : ℕ) (disk : Disk) (r : Result Error A × Disk)
      (rest : A → Disk → Result Error B × Disk)
      → ((a : A) → IsRun most r.1 (rest a r.1).1)
      → IsRun most r.1 (after r rest).1
  after-IsRun most disk (ok a, d) rest h = h a
  after-IsRun most disk (err e, d) rest h = no_calls most d

  give_up-IsRun :
      (job : Job) (reason : String) (is_blocked : Bool) (now code : ℕ) (disk : Disk)
      → IsRun 1 disk (give_up job reason is_blocked now code disk).1
  unfolding step
  give_up-IsRun job reason is_blocked now code disk =
      one_call 0 (fails job.event_id (token_or_empty job.lease_token) reason is_blocked now) disk _
        tt
        (after-IsRun 0 disk
          (fail job.event_id (token_or_empty job.lease_token) reason is_blocked now disk)
          (λ u d. (ok code, d)) (λ u. no_calls 0 _))

  refused-IsRun :
      (job : Job) (code now again : ℕ) (fault : Fault) (disk : Disk)
      → IsRun 2 disk (refused job code now again fault disk).1
  unfolding refused step
  refused-IsRun job code now again no_fault disk = more 1 _ _ (give_up-IsRun job _ _ now code disk)
  refused-IsRun job code now again before_write disk =
      more 1 _ _ (give_up-IsRun job _ _ again 2 disk)
  refused-IsRun job code now again after_write disk =
      one_call 1 (fails job.event_id (token_or_empty job.lease_token) dispatcher_exit false now)
        disk _ tt
        (after-IsRun 1 disk
          (fail job.event_id (token_or_empty job.lease_token) dispatcher_exit false now disk)
          (λ u d. handled job again d) (λ u. give_up-IsRun job _ _ again 2 _))

  launched-IsRun :
      (job : Job) (env : Environment) (launch : Launch) (disk : Disk)
      → IsRun 2 disk (launched job env launch disk).1
  unfolding launched
  launched-IsRun job env not_launched disk = more 1 _ _ (give_up-IsRun job _ _ env.failed_at 2 disk)
  launched-IsRun job env (exited code) disk = elim (Bool-cases (nat_beq code 0)) [
    | inl zero_code ↦ rw zero_code (no_calls 2 disk)
    | inr other ↦ rw other (refused-IsRun job code env.failed_at env.failed_again_at env.fault disk)
  ]

  with_job-IsRun :
      (options : Options) (env : Environment) (job : Option Job) (disk : Disk)
      → IsRun 2 disk (with_job options env job disk).1
  unfolding with_job
  with_job-IsRun options env none disk = no_calls 2 disk
  with_job-IsRun options env (some job) disk =
      elim (Bool-cases (ltb options.max_attempts job.attempts)) [
        | inl spent ↦ rw spent (more 1 _ _ (give_up-IsRun job _ _ env.failed_at 2 disk))
        | inr left ↦ rw left (launched-IsRun job env (env.dispatch job) disk)
      ]

  if-IsRun :
      {B : Type 0} (most : ℕ) (disk : Disk) (test : Bool) (p q : Result Error B × Disk)
      → IsRun most disk p.1
      → IsRun most disk q.1
      → IsRun most disk (if test then p else q).1
  if-IsRun most disk true p q h k = h
  if-IsRun most disk false p q h k = k

  -- what follows the intake
  claimed-IsRun :
      (options : Options) (env : Environment) (disk : Disk)
      → IsRun 3 disk
          (if options.dry
            then after {B = ℕ} (summary env.claimed_at disk) (λ s d. (ok 0, d))
            else after
                (claim worker_name options.lease_seconds env.token env.claimed_at disk)
                (with_job options env)).1
  unfolding step
  claimed-IsRun options env disk =
      if-IsRun 3 disk options.dry _ _
        (one_call 2 (summarises env.claimed_at) disk _ tt
          (after-IsRun 2 disk (summary env.claimed_at disk) (λ s d. (ok 0, d)) (λ s. no_calls 2 _)))
        (one_call 2 (claims worker_name options.lease_seconds env.token env.claimed_at) disk _ tt (
          after-IsRun 2 disk (claim worker_name options.lease_seconds env.token env.claimed_at disk)
            (with_job options env) (λ job. with_job-IsRun options env job _)))

  -- A run of the worker has the effect of at most four calls of the queue, one after another, each of
  -- which takes in events, claims a job, gives it up or lists the jobs; so it never submits, reviews or
  -- publishes, and it leaves every decision file as it was, whether it ends with an exit code or with an
  -- exception of a call. This holds for each fault of the `fail` that the handler guards.
  pub main-IsRun :
      (options : Options) (env : Environment) (disk : Disk)
      → IsRun 4 disk (main hash options env disk).1
        × ((main hash options env disk).1.decisions ≡ disk.decisions)
  unfolding main step
  main-IsRun options env disk =
      let run =
        one_call 3 (ingests env.events env.ingested_at) disk (main hash options env disk).1 tt (
          after-IsRun 3 disk (ingest hash env.events env.ingested_at disk) _
            (λ u. claimed-IsRun options env (ingest hash env.events env.ingested_at disk).1)) in
      (run, ap (λ (d : Disk). d.decisions) run.same ∙ steps-decisions run.calls disk run.own)
