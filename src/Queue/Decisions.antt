-- ===== src/Queue/Decisions.antt =====
-- probes/review_queue.py: `Queue.review`, `Queue.publish` and `Queue.summary`.
use awesome_private_inferenc.Prelude.{
  ℕ, String, Bool, false, ◌&&◌, ◌||◌, not, Option, none, some, List, [], ◌∷◌, ◌==◌, string_eq,
  option_eq, pair_eq, list_eq, nat_eq, nat_beq, leb, if◌then◌else◌,
}
use awesome_private_inferenc.Prelude.Dict.{Dict, lookup, insert}
use awesome_private_inferenc.Prelude.Text.{nonblank}
use awesome_private_inferenc.Json.{Json, json_eq}
use awesome_private_inferenc.Result.{Result, ok, err, ◌>>=◌, ◌>>◌, require, present}
use awesome_private_inferenc.Queue.Jobs.{
  Status, running, draft_ready, reviewed, published, Job, State, Error, key_error,
  review_incomplete, not_a_distinct_review, not_reviewed, decision_immutable, review_of,
  decision_file, transition, status_eq, Disposition, accepted, rejected, needs_evidence, Review,
}
use awesome_private_inferenc.Queue.Store.{Disk, Decision, Method, transaction, checked, loaded}
use awesome_private_inferenc.Queue.Intake.{same_event}

-- `disposition not in {...}`: the argument is a text
unfoldable pub disposition_named : String → Option Disposition
disposition_named s =
    if s == "accepted"
    then some accepted
    else if s == "rejected"
    then some rejected
    else if s == "needs_evidence"
    then some needs_evidence
    else none

-- the fields that `review` writes
unfoldable pub with_review : Review → Job → Job
with_review review job =
    transition (record job { review = some review }) reviewed review.at (review_of review)

unfoldable pub review_body : String → Review → State → Result Error (Unit {0} × State)
review_body key review state = do
  job ← present key_error (lookup key state.jobs)
  require (job.status == draft_ready && not (job.worker == some review.reviewer))
      not_a_distinct_review
  ok (tt, record state { jobs = insert key (with_review review job) state.jobs })

unfoldable pub review_as : String → String → String → ℕ → Option Disposition → Method (Unit {0})
review_as key reviewer rationale now none = checked (err review_incomplete) (λ disk. (ok tt, disk))
review_as key reviewer rationale now (some disposition) =
    checked (require (not (reviewer == "") && nonblank rationale) review_incomplete) (
      transaction (
        review_body key (record {
          reviewer = reviewer;
          disposition = disposition;
          rationale = rationale;
          at = now;
        })))

-- `Queue.review`
unfoldable pub review : String → String → String → String → ℕ → Method (Unit {0})
review key reviewer disposition rationale now =
    review_as key reviewer rationale now (disposition_named disposition)

abbrev pub disposition_index : Disposition → ℕ
disposition_index accepted = 0
disposition_index rejected = 1
disposition_index needs_evidence = 2

abbrev pub same_review : Review → Review → Bool
same_review a b =
    a.reviewer == b.reviewer
    && (nat_beq (disposition_index a.disposition) (disposition_index b.disposition)
        && (a.rationale == b.rationale && nat_beq a.at b.at))

-- `json.loads(path.read_text()) == record`
unfoldable pub same_decision : Decision → Decision → Bool
same_decision a b =
    a.event_id == b.event_id
    && (same_event a.event b.event && (a.draft == b.draft && same_review a.review b.review))

-- `{k: job[k] for k in ("event_id", "event", "draft", "review")}`
unfoldable pub decision_of : Job → Result Error Decision
decision_of job = do
  draft ← present key_error job.draft
  review ← present key_error job.review
  ok (record { event_id = job.event_id; event = job.event; draft = draft; review = review })

-- the decision file: a first write, or a check of what stands there
unfoldable pub write_decision :
    String → Decision → Dict String Decision → Option Decision → Result Error (Dict String Decision)
write_decision key decision files none = ok (insert key decision files)
write_decision key decision files (some old) =
    if same_decision old decision then ok files else err decision_immutable

-- the job after `publish`, unchanged if it was published before
unfoldable pub as_published : String → ℕ → Job → Job
as_published key now job =
    if job.status == published then job else transition job published now (decision_file key)

unfoldable pub publish_body :
    String → ℕ → State → Dict String Decision → Result Error (Dict String Decision × State)
publish_body key now state files = do
  job ← present key_error (lookup key state.jobs)
  require (job.status == reviewed || job.status == published) not_reviewed
  decision ← decision_of job
  files' ← write_decision key decision files (lookup key files)
  ok (files', record state { jobs = insert key (as_published key now job) state.jobs })

abbrev pub commit_both :
    Disk → Result Error (Dict String Decision × State) → Result Error (Unit {0}) × Disk
commit_both disk (ok (files, state)) = (ok tt, record { queue = some state; decisions = files })
commit_both disk (err e) = (err e, disk)

-- `Queue.publish`; a decision file is named by its key, in the one output directory
unfoldable pub publish : String → ℕ → Method (Unit {0})
publish key now disk = commit_both disk (publish_body key now (loaded disk.queue) disk.decisions)

-- One item of `summary`.
pub record Item : Type 0 where
  pub event_id : String
  pub status : Status
  pub attempts : ℕ
  pub created_at : ℕ
  pub updated_at : ℕ
  pub worker : Option String
  pub lease_until : Option ℕ
  pub kind : Option Json
  pub route_id : Option Json
  pub lease_expired : Bool

unfoldable pub is_overdue : ℕ → Job → Result Error Bool
is_overdue now job =
    if job.status == running
    then (present key_error job.lease_until >>= λ until. ok (leb until now))
    else ok false

unfoldable pub items : ℕ → Dict String Job → Result Error (List Item)
items now [] = ok []
items now ((key, job) ∷ jobs) = do
  overdue ← is_overdue now job
  rest ← items now jobs
  ok (
      record {
        event_id = job.event_id;
        status = job.status;
        attempts = job.attempts;
        created_at = job.created_at;
        updated_at = job.updated_at;
        worker = job.worker;
        lease_until = job.lease_until;
        kind = lookup "kind" job.event.others;
        route_id = lookup "route_id" job.event.others;
        lease_expired = overdue;
      }
      ∷ rest)

-- `Queue.summary`: its list of jobs
unfoldable pub summary : ℕ → Method (List Item)
summary now = transaction λ state. items now state.jobs >>= λ jobs. ok (jobs, state)
