-- ===== src/Queue/Atomic.antt =====
-- probes/review_queue.py: calls that raise.
use awesome_private_inferenc.Prelude.{String, ◌≡◌, Bool, true, false, List, [], ◌∷◌, if◌then◌else◌}
use awesome_private_inferenc.Prelude.Dict.{Dict}
use awesome_private_inferenc.Result.{Result, ok, err}
use awesome_private_inferenc.Queue.Jobs.{Event, Error}
use awesome_private_inferenc.Queue.Store.{Disk, Method}
use awesome_private_inferenc.Queue.Intake.{ingest}
use awesome_private_inferenc.Queue.Lease.{claim}
use awesome_private_inferenc.Queue.Drafts.{Reference, submit, fail, requeue}
use awesome_private_inferenc.Queue.Decisions.{review, publish, summary}
use awesome_private_inferenc.Queue.Calls.{
  Call, ingests, claims, submits, fails, requeues, reviews, publishes, summarises, step,
}

abbrev pub is_err : {A : Type 0} → Result Error A → Bool
is_err {A} (ok a) = false
is_err {A} (err e) = true

-- A method that leaves the files as they were where it raises.
abbrev IsAtomic : {A : Type 0} → Method A → Disk → Type 0
IsAtomic m disk = is_err (m disk).0 ≡ true → (m disk).1 ≡ disk

module _ (hash : Event → String) (inspect : String → Reference) where
  -- Whether a call raises.
  unfoldable pub raises : Call → Disk → Bool
  raises (ingests events now) disk = is_err (ingest hash events now disk).0
  raises (claims worker seconds token now) disk = is_err (claim worker seconds token now disk).0
  raises (submits key token draft now) disk = is_err (submit inspect key token draft now disk).0
  raises (fails key token reason is_blocked now) disk =
      is_err (fail key token reason is_blocked now disk).0
  raises (requeues key reason now) disk = is_err (requeue key reason now disk).0
  raises (reviews key reviewer disposition rationale now) disk =
      is_err (review key reviewer disposition rationale now disk).0
  raises (publishes key now) disk = is_err (publish key now disk).0
  raises (summarises now) disk = is_err (summary now disk).0

  -- Those of the calls that return, where each is made after the ones before it.
  unfoldable pub returned : List Call → Disk → List Call
  returned [] disk = []
  returned (call ∷ calls) disk =
      let rest = returned calls (step hash inspect call disk) in
      if raises call disk then rest else call ∷ rest
