-- ===== src/Queue/Invariant.antt =====
-- probes/review_queue.py: the invariant of a job, for each change of a job that the methods make.
use awesome_private_inferenc.Prelude.{
  ℕ, ◌+◌, String, ◌≡◌, refl, Bool, true, false, ◌||◌, not, Option, none, some, List, [], ◌∷◌, ◌++◌,
  arith, ◌==◌, string_eq, option_eq, is_some, if◌then◌else◌,
}
use awesome_private_inferenc.Queue.Jobs.{
  Status, queued, running, retryable_failure, draft_ready, blocked, reviewed, published, status_eq,
  Event, Review, Entry, Job, transition, Details, because, by, attempt_by, review_of, decision_file,
}
use awesome_private_inferenc.Queue.Intake.{new_job}
use awesome_private_inferenc.Queue.Lease.{lapse, lease, is_candidate}
use awesome_private_inferenc.Queue.Drafts.{Draft, with_draft, failed, requeued, is_requeueable}
use awesome_private_inferenc.Queue.Decisions.{with_review, as_published}

abbrev pub is_running : Status → Bool
is_running running = true
is_running _ = false

-- The stages at which a job has a draft, a review, a worker.
abbrev pub has_draft : Status → Bool
has_draft draft_ready = true
has_draft reviewed = true
has_draft published = true
has_draft _ = false

abbrev pub has_review : Status → Bool
has_review reviewed = true
has_review published = true
has_review _ = false

abbrev pub has_worker : Status → Bool
has_worker running = true
has_worker s = has_draft s

-- Nobody reviews their own draft.
abbrev pub reviewer_differs : Option Review → Option String → Bool
reviewer_differs none worker = true
reviewer_differs (some review) worker = not (worker == some review.reviewer)

abbrev pub implies : Bool → Bool → Bool
implies a b = not a || b

-- The status of the last history entry, and how many entries are `running`.
abbrev pub last_status : List Entry → Option Status
last_status [] = none
last_status (e ∷ []) = some e.status
last_status (e ∷ f ∷ es) = last_status (f ∷ es)

abbrev pub runs : List Entry → ℕ
runs [] = 0
runs (e ∷ es) = (if is_running e.status then 1 else 0) + runs es

pub record IsSound (key : String) (job : Job) : Type 0 where
  pub named : job.event_id ≡ key
  pub token : is_some job.lease_token ≡ is_running job.status
  pub deadline : implies (is_running job.status) (is_some job.lease_until) ≡ true
  pub worked : implies (has_worker job.status) (is_some job.worker) ≡ true
  pub drafted : is_some job.draft ≡ has_draft job.status
  pub judged : is_some job.review ≡ has_review job.status
  pub distinct : reviewer_differs job.review job.worker ≡ true
  pub logged : last_status job.history ≡ some job.status
  pub counted : runs job.history ≡ job.attempts

last_status-append : (es : List Entry) (e : Entry) → last_status (es ++ e ∷ []) ≡ some e.status
last_status-append [] e = refl
last_status-append (d ∷ []) e = refl
last_status-append (d ∷ f ∷ es) e = last_status-append (f ∷ es) e

runs-append :
    (es : List Entry) (e : Entry)
    → runs (es ++ e ∷ []) ≡ runs es + (if is_running e.status then 1 else 0)
runs-append [] e = omega arith
runs-append (d ∷ es) e = omega (arith, runs-append es e)

-- A new entry of the history agrees with a new status, and counts as a run if it is `running`.
module _ (es : List Entry) (now : ℕ) (s : Status) (d : Details) where
  abbrev entry : Entry
  entry = record { at = now; status = s; details = d }

  logged_entry : last_status (es ++ entry ∷ []) ≡ some s
  logged_entry = last_status-append es entry

  counted_entry : runs (es ++ entry ∷ []) ≡ runs es + (if is_running s then 1 else 0)
  counted_entry = runs-append es entry

pub new_job-IsSound : (key : String) (event : Event) (now : ℕ) → IsSound key (new_job key event now)
unfolding new_job transition
new_job-IsSound key event now = ground arith

module _ (now : ℕ) (key : String) {job : Job} where
  pub lapse-IsSound : IsSound key job → job.status ≡ running → IsSound key (lapse now job)
  unfolding lapse transition
  lapse-IsSound h at = ground (
    arith,
    logged_entry job.history now retryable_failure (because "worker lease expired"),
    counted_entry job.history now retryable_failure (because "worker lease expired"),
  )

  pub lease-IsSound :
      (worker token : String) (seconds : ℕ)
      → IsSound key job
      → is_candidate job ≡ true
      → IsSound key (lease worker seconds token now job)
  unfolding lease transition
  lease-IsSound worker token seconds h c = ground (
    arith,
    logged_entry job.history now running (attempt_by worker (job.attempts + 1)),
    counted_entry job.history now running (attempt_by worker (job.attempts + 1)),
  )

  pub with_draft-IsSound :
      (draft : Draft) (worker : String)
      → IsSound key job
      → job.status ≡ running
      → job.worker ≡ some worker
      → IsSound key (with_draft draft now worker job)
  unfolding with_draft transition
  with_draft-IsSound draft worker h at held = ground (
    arith,
    logged_entry job.history now draft_ready (by worker),
    counted_entry job.history now draft_ready (by worker),
  )

  pub failed-IsSound :
      (is_blocked : Bool) (reason : String)
      → IsSound key job
      → job.status ≡ running
      → IsSound key (failed is_blocked reason now job)
  unfolding failed transition
  failed-IsSound true reason h at = ground (
    arith,
    logged_entry job.history now blocked (because reason),
    counted_entry job.history now blocked (because reason),
  )
  failed-IsSound false reason h at = ground (
    arith,
    logged_entry job.history now retryable_failure (because reason),
    counted_entry job.history now retryable_failure (because reason),
  )

  pub requeued-IsSound :
      (reason : String)
      → IsSound key job
      → is_requeueable job ≡ true
      → IsSound key (requeued reason now job)
  unfolding requeued transition
  requeued-IsSound reason h r = ground (
    arith,
    logged_entry job.history now queued (because reason),
    counted_entry job.history now queued (because reason),
  )

  pub with_review-IsSound :
      (review : Review)
      → IsSound key job
      → job.status ≡ draft_ready
      → (job.worker == some review.reviewer) ≡ false
      → IsSound key (with_review review job)
  unfolding with_review transition
  with_review-IsSound review h at other = ground (
    arith,
    logged_entry job.history review.at reviewed (review_of review),
    counted_entry job.history review.at reviewed (review_of review),
  )

  pub as_published-IsSound :
      IsSound key job
      → (job.status == reviewed || job.status == published) ≡ true
      → IsSound key (as_published key now job)
  unfolding as_published transition
  as_published-IsSound h at = ground (
    arith,
    logged_entry job.history now published (decision_file key),
    counted_entry job.history now published (decision_file key),
  )
