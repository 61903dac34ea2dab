-- ===== src/Queue/Lease.antt =====
-- probes/review_queue.py: `Queue.claim` and `Queue.check_lease`. The token that `secrets` gives is
-- an argument.
use awesome_private_inferenc.Prelude.{
  ℕ, ◌+◌, ◌*◌, String, Bool, ◌&&◌, ◌||◌, not, Option, none, some, [], ◌∷◌, ◌==◌, string_eq, nat_eq,
  ltb, leb, nat_beq, if◌then◌else◌,
}
use awesome_private_inferenc.Prelude.Dict.{Dict, insert}
use awesome_private_inferenc.Prelude.Text.{text_le}
use awesome_private_inferenc.Json.{Json, str}
use awesome_private_inferenc.Result.{Result, ok, ◌>>=◌, ◌>>◌, require, present}
use awesome_private_inferenc.Queue.Jobs.{
  running, queued, retryable_failure, Job, State, Error, key_error, bad_lease_request,
  not_under_lease, lease_expired, because, attempt_by, transition, second, stamp_order, status_eq,
}
use awesome_private_inferenc.Queue.Store.{Method, transaction, checked}

-- the transition of a lease that is over: `job.pop("lease_token", None)` at the end
unfoldable pub lapse : ℕ → Job → Job
lapse now job = record (transition job retryable_failure now (because "worker lease expired")) {
  lease_token = none;
}

-- `job["status"] == "running" and parse(job["lease_until"]) <= now`, and what follows from it
unfoldable pub expire : ℕ → Job → Result Error Job
expire now job =
    if job.status == running
    then (present key_error job.lease_until >>= λ until.
        ok (if leb until now then lapse now job else job))
    else ok job

unfoldable pub expire_all : ℕ → Dict String Job → Result Error (Dict String Job)
expire_all now [] = ok []
expire_all now ((key, job) ∷ jobs) = do
  job' ← expire now job
  jobs' ← expire_all now jobs
  ok ((key, job') ∷ jobs')

-- `j["status"] in {"queued", "retryable_failure"}`
abbrev pub is_candidate : Job → Bool
is_candidate job = job.status == queued || job.status == retryable_failure

-- `priority.get(str(...), 2)`
unfoldable pub rank_name : String → ℕ
rank_name s =
    if s == "critical"
    then 0
    else if s == "high"
    then 1
    else if s == "warn"
    then 2
    else if s == "medium"
    then 2
    else if s == "info"
    then 3
    else if s == "low"
    then 3
    else 2

unfoldable pub rank : Option Json → ℕ
unfolding rank_name
rank none = rank_name "info"
rank (some (str s)) = rank_name s
rank (some _) = 2

-- `key(a) < key(b)` for the key (priority, created_at, event_id)
unfoldable pub comes_before : Job → Job → Bool
comes_before a b =
    ltb (rank a.event.priority) (rank b.event.priority)
    || (nat_beq (rank a.event.priority) (rank b.event.priority)
        && (ltb (stamp_order a.created_at) (stamp_order b.created_at)
            || (nat_beq (stamp_order a.created_at) (stamp_order b.created_at)
                && not (text_le b.event_id a.event_id))))

-- `min(candidates, key=...)`: the first of the least, with the key that the job is held under
unfoldable pub first_candidate : Dict String Job → Option (String × Job)
first_candidate [] = none
first_candidate ((key, job) ∷ jobs) =
    let rest = first_candidate jobs in
    if is_candidate job
    then elim rest [
      | none ↦ some (key, job)
      | some other ↦ if comes_before other.1 job then some other else some (key, job)
    ]
    else rest

-- The fields that `claim` writes on the job that it chose.
unfoldable pub lease : String → ℕ → String → ℕ → Job → Job
lease worker lease_seconds token now job =
    transition
      (record job {
        attempts = job.attempts + 1;
        worker = some worker;
        lease_token = some token;
        lease_until = some (now + lease_seconds * second);
      })
      running now (attempt_by worker (job.attempts + 1))

unfoldable pub hand_out :
    String → ℕ → String → ℕ → State → Dict String Job → Option (String × Job) → Option Job × State
hand_out worker lease_seconds token now state jobs none = (none, record state { jobs = jobs })
hand_out worker lease_seconds token now state jobs (some (key, job)) =
    let job' = lease worker lease_seconds token now job in
    (some job', record state { jobs = insert key job' jobs })

unfoldable pub claim_body : String → ℕ → String → ℕ → State → Result Error (Option Job × State)
claim_body worker lease_seconds token now state = do
  jobs ← expire_all now state.jobs
  ok (hand_out worker lease_seconds token now state jobs (first_candidate jobs))

-- `Queue.claim`
unfoldable pub claim : String → ℕ → String → ℕ → Method (Option Job)
claim worker lease_seconds token now =
    checked
      (require (not (worker == "") && (leb 1 lease_seconds && leb lease_seconds 86400))
        bad_lease_request)
      (transaction (claim_body worker lease_seconds token now))

-- `job.get("lease_token", "")`
abbrev pub token_or_empty : Option String → String
token_or_empty none = ""
token_or_empty (some token) = token

-- `Queue.check_lease`
unfoldable pub check_lease : Job → String → ℕ → Result Error (Unit {0})
check_lease job token now = do
  require (job.status == running && token_or_empty job.lease_token == token) not_under_lease
  lease_until ← present key_error job.lease_until
  require (not (leb lease_until now)) lease_expired
