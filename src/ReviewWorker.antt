-- ===== src/ReviewWorker.antt =====
-- probes/review_worker.py: `main`, a client of the review queue that hands one job to an agent. The
-- command that it runs is an argument; its time limit, the packet's file and the printed text are left
-- out. An `OSError` of a method ends the run, except in the one call of `fail` that the handler guards.
pub mod Runs
use awesome_private_inferenc.Prelude.{
  ℕ, String, Bool, true, false, Option, none, some, List, ltb, nat_beq, if◌then◌else◌,
}
use awesome_private_inferenc.Result.{Result, ok, err}
use awesome_private_inferenc.Queue.Jobs.{Event, Job, Error}
use awesome_private_inferenc.Queue.Store.{Disk, Method}
use awesome_private_inferenc.Queue.Intake.{ingest}
use awesome_private_inferenc.Queue.Lease.{claim, token_or_empty}
use awesome_private_inferenc.Queue.Drafts.{fail}
use awesome_private_inferenc.Queue.Decisions.{summary}

-- How the command ended: with an exit code, or with an `OSError` or a timeout.
pub data Launch : Type 0 where
  exited : ℕ → Launch
  not_launched : Launch

-- An `OSError` of the call of `fail` after a failed command: none, one before it replaced the file, or
-- one after that.
pub data Fault : Type 0 where
  no_fault before_write after_write : Fault

-- the arguments of the command line that decide something
pub record Options : Type 0 where
  pub lease_seconds : ℕ
  pub max_attempts : ℕ
  pub dry : Bool

-- what the environment gives to a run: the events, the token, the moments of its calls
pub record Environment : Type 0 where
  pub events : List Event
  pub token : String
  pub ingested_at : ℕ
  pub claimed_at : ℕ
  pub failed_at : ℕ
  pub fault : Fault
  pub failed_again_at : ℕ
  pub dispatch : Job → Launch

abbrev pub worker_name : String
worker_name = "sol-dispatch"

abbrev pub budget_exhausted : String
budget_exhausted = "Retry budget exhausted; supervisor review required"

abbrev pub dispatcher_exit : String
dispatcher_exit = "Dispatcher exit"

abbrev pub launch_unknown : String
launch_unknown = "launch outcome may be unknown"

-- a method call, and the rest of the run unless it raises
abbrev pub after :
    {A B : Type 0}
    → Result Error A × Disk
    → (A → Disk → Result Error B × Disk)
    → Result Error B × Disk
after {A} {B} (ok a, disk) rest = rest a disk
after {A} {B} (err e, disk) rest = (err e, disk)

-- `queue.fail(job["event_id"], job["lease_token"], ...)`, then an exit code
abbrev pub give_up : Job → String → Bool → ℕ → ℕ → Disk → Result Error ℕ × Disk
give_up job reason is_blocked now code disk =
    after (fail job.event_id (token_or_empty job.lease_token) reason is_blocked now disk)
      (λ u d. (ok code, d))

-- the handler: `queue.fail` once more, and the exit code 2
abbrev pub handled : Job → ℕ → Disk → Result Error ℕ × Disk
handled job now disk = give_up job launch_unknown false now 2 disk

-- `if result.returncode:` inside the `try`, so that an `OSError` of this `queue.fail` is handled too
unfoldable pub refused : Job → ℕ → ℕ → ℕ → Fault → Disk → Result Error ℕ × Disk
refused job code now again no_fault disk = give_up job dispatcher_exit false now code disk
refused job code now again before_write disk = handled job again disk
refused job code now again after_write disk =
    after (fail job.event_id (token_or_empty job.lease_token) dispatcher_exit false now disk)
      (λ u d. handled job again d)

-- the `try`, with its handler
unfoldable pub launched : Job → Environment → Launch → Disk → Result Error ℕ × Disk
launched job env not_launched disk = handled job env.failed_at disk
launched job env (exited code) disk =
    let failure = refused job code env.failed_at env.failed_again_at env.fault disk in
    if nat_beq code 0 then (ok 0, disk) else failure

-- what follows the claim
unfoldable pub with_job : Options → Environment → Option Job → Disk → Result Error ℕ × Disk
with_job options env none disk = (ok 0, disk)
with_job options env (some job) disk =
    let over_budget = give_up job budget_exhausted true env.failed_at 2 disk in
    let dispatched = launched job env (env.dispatch job) disk in
    if ltb options.max_attempts job.attempts then over_budget else dispatched

-- `main`: the exit code or the exception, and the files afterwards
unfoldable pub main : (Event → String) → Options → Environment → Disk → Result Error ℕ × Disk
main hash options env disk = after (ingest hash env.events env.ingested_at disk) (λ u ingested.
    let dry = after (summary env.claimed_at ingested) (λ s d. (ok 0, d)) in
    let claimed =
      after (claim worker_name options.lease_seconds env.token env.claimed_at ingested)
        (with_job options env) in
    if options.dry then dry else claimed)
