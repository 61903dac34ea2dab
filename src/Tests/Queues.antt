-- ===== src/Tests/Queues.antt =====
-- Runs of the review queue (probes/review_queue.py) on two workers and one event.
use awesome_private_inferenc.ReviewWorker.{
  Options, Environment, exited, no_fault, after_write, main, with_job, launched, refused,
}
use awesome_private_inferenc.ReviewWorker.Runs.{IsRun, main-IsRun}
use awesome_private_inferenc.Prelude.{
  String, ◌≡◌, ◌≢◌, refl, true, false, Option, none, some, List, [], ◌∷◌, arith, ◌⊎◌, string_eq,
  nat_eq,
}
use awesome_private_inferenc.Prelude.Dict.{Dict, lookup, insert, Distinct}
use awesome_private_inferenc.Prelude.Text.{nonblank, has_space}
use awesome_private_inferenc.Json.{str, arr, cons, nil, json_beq}
use awesome_private_inferenc.Result.{ok, err}
use awesome_private_inferenc.Queue.Jobs.{
  not_under_lease, Event, Job, State, Review, running, published, transition,
}
use awesome_private_inferenc.Queue.Store.{Disk, transaction, checked}
use awesome_private_inferenc.Queue.Intake.{
  is_safe_id, checked_key, new_job, admit, raw_key, event_key, ingest_event, ingest_all,
  ingest_body, ingest,
}
use awesome_private_inferenc.Queue.Lease.{
  expire, expire_all, first_candidate, lease, hand_out, claim_body, claim, check_lease,
  is_candidate,
}
use awesome_private_inferenc.Queue.Drafts.{
  fail, fail_body, failed, Draft, Reference, check_draft, check_classification, items_are_text,
  is_evidence, items_are_evidence, submit_body, submit, with_draft,
}
use awesome_private_inferenc.Queue.Decisions.{
  disposition_named, review_as, review_body, review, with_review, publish, publish_body,
  decision_of, write_decision, as_published,
}
use awesome_private_inferenc.Queue.Calls.{
  Call, ingests, claims, submits, requeues, reviews, publishes, step, steps, jobs_on, fresh,
}
use awesome_private_inferenc.Queue.Invariant.{IsSound, new_job-IsSound}
use awesome_private_inferenc.Queue.Reachable.{reachable-IsSound, published-is_reviewed}
use awesome_private_inferenc.Queue.Atomic.{returned, raises}
use awesome_private_inferenc.Queue.Diagram.{IsRecorded, calls_follow_diagram, published_final}
use awesome_private_inferenc.Queue.Leased.{lease_exclusive}
use awesome_private_inferenc.Queue.Choice.{Handed, claim-least, claim-returns}
use awesome_private_inferenc.Queue.Replay.{ingest-ingest}

abbrev no_hash : Event → String
no_hash event = "00000000"

abbrev evidence_at : String → Reference
evidence_at ref = record {
  scheme = "";
  netloc = "";
  absolute = false;
  inside_root = true;
  is_file = true;
}

abbrev drift : Event
drift = record { event_id = some (str "drift-0001"); priority = some (str "high"); others = [] }

abbrev note : Draft
note =
    ("event_id", str "drift-0001")
    ∷ ("summary", str "s")
    ∷ ("classification", str "regression")
    ∷ ("next_action", str "a")
    ∷ ("plaintext_boundary_impact", str "none")
    ∷ ("acceptance_policy_impact", str "none")
    ∷ ("evidence", arr (cons (str "data/a.json") nil))
    ∷ ("checks_performed", arr (cons (str "diff") nil))
    ∷ ("uncertainties", arr nil)
    ∷ []

abbrev fresh_state : State
fresh_state = record { jobs = []; last_ingest_at = none }

abbrev claimed_run : List Call
claimed_run = ingests (drift ∷ []) 1000000 ∷ claims "ann" 60 "t1" 2000000 ∷ []

abbrev whole_run : List Call
whole_run =
    ingests (drift ∷ []) 1000000
    ∷ claims "ann" 60 "t1" 2000000
    ∷ submits "drift-0001" "t1" note 3000000
    ∷ reviews "drift-0001" "bob" "accepted" "checked" 4000000
    ∷ publishes "drift-0001" 5000000
    ∷ []

abbrev after : List Call → Dict String Job
after calls = jobs_on (steps no_hash evidence_at calls fresh)

abbrev job_or : Option Job → Job
job_or (some job) = job
job_or none = new_job "none" drift 0

-- the job that a run leaves
abbrev job_after : List Call → Job
job_after calls = job_or (lookup "drift-0001" (after calls))

-- the definitions that a call computes by
claimed_job : lookup "drift-0001" (after claimed_run) ≡ some (job_after claimed_run)
unfolding steps step ingest ingest_body ingest_all ingest_event event_key raw_key checked_key
    is_safe_id admit new_job transition lookup insert transaction checked claim claim_body
    expire_all expire first_candidate hand_out lease
claimed_job = refl

whole_job : lookup "drift-0001" (after whole_run) ≡ some (job_after whole_run)
unfolding steps step ingest ingest_body ingest_all ingest_event event_key raw_key checked_key
    is_safe_id admit new_job transition lookup insert transaction checked claim claim_body
    expire_all expire first_candidate hand_out lease submit submit_body check_draft
    check_classification items_are_text is_evidence items_are_evidence check_lease with_draft review
    review_as review_body disposition_named with_review publish publish_body decision_of
    write_decision as_published nonblank has_space
whole_job = refl

whole_published : (job_after whole_run).status ≡ published
unfolding steps step ingest ingest_body ingest_all ingest_event event_key raw_key checked_key
    is_safe_id admit new_job transition lookup insert transaction checked claim claim_body
    expire_all expire first_candidate hand_out lease submit submit_body check_draft
    check_classification items_are_text is_evidence items_are_evidence check_lease with_draft review
    review_as review_body disposition_named with_review publish publish_body decision_of
    write_decision as_published nonblank has_space
whole_published = refl

reachable-IsSound_example : IsSound "drift-0001" (job_after claimed_run)
reachable-IsSound_example =
    reachable-IsSound no_hash evidence_at claimed_run "drift-0001" claimed_job

published-is_reviewed_example :
    (draft : Draft) × (review : Review) × ((job_after whole_run).draft ≡ some draft)
    × (check_draft evidence_at "drift-0001" draft ≡ ok tt)
    × ((job_after whole_run).review ≡ some review)
    × ((job_after whole_run).worker ≢ some review.reviewer)
published-is_reviewed_example =
    published-is_reviewed no_hash evidence_at whole_run "drift-0001" whole_job whole_published

-- one job, as it was taken in and as ann holds it until 62 s
abbrev waiting_job : Job
waiting_job = new_job "drift-0001" drift 1000000

abbrev held_job : Job
held_job = lease "ann" 60 "t1" 2000000 waiting_job

abbrev state_of : Job → State
state_of job = record { jobs = ("drift-0001", job) ∷ []; last_ingest_at = none }

abbrev disk_of : Job → Disk
disk_of job = record { queue = some (state_of job); decisions = [] }

-- calls of bob, of which none may change what ann holds
abbrev intruder : List Call
intruder =
    claims "bob" 60 "t2" 61999999
    ∷ submits "drift-0001" "t2" note 3000000
    ∷ requeues "drift-0001" "again" 3000000
    ∷ reviews "drift-0001" "bob" "accepted" "fine" 4000000
    ∷ publishes "drift-0001" 5000000
    ∷ []

held_status : held_job.status ≡ running
unfolding lease transition
held_status = refl

held_token : held_job.lease_token ≡ some "t1"
unfolding lease transition
held_token = refl

held_until : held_job.lease_until ≡ some 62000000
unfolding lease transition
held_until = refl

one_key : (job : Job) → Distinct (jobs_on (disk_of job))
one_key job = (refl, tt)

held_there : (job : Job) → lookup "drift-0001" (jobs_on (disk_of job)) ≡ some job
unfolding lookup
held_there job = refl

calls_follow_diagram_example :
    (job' : Job) × (lookup "drift-0001"
        (jobs_on (steps no_hash evidence_at intruder (disk_of held_job)))
      ≡ some job')
    × IsRecorded held_job job'
calls_follow_diagram_example =
    calls_follow_diagram no_hash evidence_at intruder (disk_of held_job) "drift-0001"
      (one_key held_job) (held_there held_job)

abbrev final_job : Job
final_job = job_after whole_run

published_final_example :
    lookup "drift-0001" (jobs_on (steps no_hash evidence_at intruder (disk_of final_job)))
    ≡ some final_job
published_final_example =
    published_final no_hash evidence_at intruder (disk_of final_job) "drift-0001"
      (one_key final_job) (held_there final_job) whole_published

lease_exclusive_example :
    lookup "drift-0001" (jobs_on (steps no_hash evidence_at intruder (disk_of held_job)))
    ≡ some held_job
lease_exclusive_example =
    lease_exclusive "drift-0001" held_job "t1" 62000000 held_status held_token held_until no_hash
      evidence_at intruder (disk_of held_job) (omega arith, (refl, (tt, (tt, (tt, tt)))))
      (one_key held_job) (held_there held_job)

claim_runs :
    claim_body "ann" 60 "t1" 2000000 (state_of waiting_job) ≡ ok (some held_job, state_of held_job)
unfolding claim_body expire_all expire new_job transition first_candidate hand_out lease insert
claim_runs = refl

claim-least_example :
    (jobs : Dict String Job) × (expire_all 2000000 (state_of waiting_job).jobs ≡ ok jobs)
    × Handed "ann" "t1" 60 2000000 jobs (state_of held_job) held_job
claim-least_example =
    claim-least "ann" "t1" 60 2000000 (state_of waiting_job) (state_of held_job) held_job
      (one_key waiting_job) claim_runs

waiting_job-IsSound : IsSound "drift-0001" waiting_job
waiting_job-IsSound = new_job-IsSound "drift-0001" drift 1000000

claim-returns_example :
    (jobs : Dict String Job) × (expire_all 2000000 (state_of waiting_job).jobs ≡ ok jobs)
    × (((job : Job) × (state' : State) × (claim_body "ann" 60 "t1" 2000000 (state_of waiting_job)
            ≡ ok (some job, state')))
        ⊎ ((claim_body "ann" 60 "t1" 2000000 (state_of waiting_job)
              ≡ ok (none, record (state_of waiting_job) { jobs = jobs }))
            × ((key : String) (other : Job)
                → lookup key jobs ≡ some other
                → is_candidate other ≡ false)))
claim-returns_example =
    claim-returns "ann" "t1" 60 2000000 (state_of waiting_job) (waiting_job-IsSound, tt)

abbrev taken_in : State
taken_in = record { jobs = ("drift-0001", waiting_job) ∷ []; last_ingest_at = some 1000000 }

ingest_runs : ingest_body no_hash (drift ∷ drift ∷ []) 1000000 fresh_state ≡ ok (1, taken_in)
unfolding ingest_body ingest_all ingest_event event_key raw_key checked_key is_safe_id admit insert
    lookup new_job transition json_beq
ingest_runs = refl

ingest-ingest_example :
    ingest_body no_hash (drift ∷ drift ∷ []) 9000000 taken_in
    ≡ ok (0, record taken_in { last_ingest_at = some 9000000 })
ingest-ingest_example =
    ingest-ingest no_hash (drift ∷ drift ∷ []) 1000000 9000000 fresh_state taken_in 1 ingest_runs

-- a run of the worker whose command fails
abbrev worker_options : Options
worker_options = record { lease_seconds = 60; max_attempts = 3; dry = false }

abbrev failing : Environment
failing = record {
  events = drift ∷ [];
  token = "t1";
  ingested_at = 1000000;
  claimed_at = 2000000;
  fault = no_fault;
  failed_again_at = 100000000;
  failed_at = 3000000;
  dispatch = λ job. exited 7;
}

main-IsRun_example :
    IsRun no_hash evidence_at 4 fresh (main no_hash worker_options failing fresh).1
    × ((main no_hash worker_options failing fresh).1.decisions ≡ fresh.decisions)
main-IsRun_example = main-IsRun no_hash evidence_at worker_options failing fresh

-- it ends with the command's exit code
worker_code : (main no_hash worker_options failing fresh).0 ≡ ok 7
unfolding main with_job launched refused steps step ingest ingest_body ingest_all ingest_event
    event_key raw_key checked_key is_safe_id admit new_job transition lookup insert transaction
    checked claim claim_body expire_all expire first_candidate hand_out lease fail fail_body failed
    check_lease nonblank
worker_code = refl

-- a claim with no worker raises, between two calls that return
abbrev mixed_calls : List Call
mixed_calls =
    ingests (drift ∷ []) 1000000 ∷ claims "" 60 "t1" 2000000 ∷ claims "ann" 60 "t1" 2000000 ∷ []

mixed_run : returned no_hash evidence_at mixed_calls fresh ≡ claimed_run
unfolding returned raises steps step ingest ingest_body ingest_all ingest_event event_key raw_key
    checked_key is_safe_id admit new_job transition lookup insert transaction checked claim
    claim_body expire_all expire first_candidate hand_out lease
mixed_run = refl

-- an `OSError` after the failure was written: the second call finds no lease
abbrev faulty : Environment
faulty = record failing { fault = after_write }

faulty_run : (main no_hash worker_options faulty fresh).0 ≡ err not_under_lease
unfolding main with_job launched refused steps step ingest ingest_body ingest_all ingest_event
    event_key raw_key checked_key is_safe_id admit new_job transition lookup insert transaction
    checked claim claim_body expire_all expire first_candidate hand_out lease fail fail_body failed
    check_lease nonblank
faulty_run = refl
