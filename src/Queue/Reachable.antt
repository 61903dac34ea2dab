-- ===== src/Queue/Reachable.antt =====
-- probes/review_queue.py: the jobs in the states that a run of calls leads to.
use awesome_private_inferenc.Prelude.{
  ℕ, String, ◌≡◌, ◌≢◌, refl, true, string_eq, option_eq, Option, none, some, List, arith, eq_iff,
  is_some, some-eq,
}
use mathlib.Core.Path.{subst}
use awesome_private_inferenc.Prelude.Dict.{lookup}
use awesome_private_inferenc.Result.{ok}
use awesome_private_inferenc.Queue.Jobs.{
  running, published, status_eq, status_beq_iff, Event, Review, Job, transition,
}
use awesome_private_inferenc.Queue.Intake.{new_job}
use awesome_private_inferenc.Queue.Lease.{lapse, lease, check_lease}
use awesome_private_inferenc.Queue.Drafts.{
  Draft, Reference, check_draft, with_draft, failed, requeued,
}
use awesome_private_inferenc.Queue.Decisions.{with_review, as_published}
use awesome_private_inferenc.Queue.Invariant.{
  IsSound, reviewer_differs, new_job-IsSound, lapse-IsSound, lease-IsSound, with_draft-IsSound,
  failed-IsSound, requeued-IsSound, with_review-IsSound, as_published-IsSound,
}
use awesome_private_inferenc.Queue.Moves.{
  Move, lapses, leases, drafts, fails, requeues, reviews, publishes, Evolves, still, on, Follows,
  taken_in,
}
use awesome_private_inferenc.Queue.Calls.{Call, steps, jobs_on, fresh, steps-Advances}

-- `check_lease` lets only the worker of a running job through.
pub check_lease-running :
    (job : Job) (token : String) (now : ℕ)
    → check_lease job token now ≡ ok tt
    → job.status ≡ running
unfolding check_lease
check_lease-running job token now h = ground (arith, status_beq_iff job.status running)

-- A property of a new job that every move keeps holds of every job of a fresh run.
module _ (hash : Event → String) (inspect : String → Reference) (P : String → Job → Type 0) where
  Evolves-induction :
      (key : String)
      → ((a b : Job) → Move inspect key a b → P key a → P key b)
      → {a b : Job} → Evolves inspect key a b
      → P key a
      → P key b
  Evolves-induction key keep still h = h
  Evolves-induction key keep (on {b = b} {c = c} r m) h =
      keep b c m (Evolves-induction key keep r h)

  taken_in_induction :
      (key : String)
      → ((event : Event) (now : ℕ) → P key (new_job key event now))
      → ((a b : Job) → Move inspect key a b → P key a → P key b)
      → {o : Option Job} {job : Job} → Follows inspect key none o
      → o ≡ some job
      → P key job
  taken_in_induction key start keep Follows.absent e = cc
  taken_in_induction key start keep (taken_in event now r) e =
      subst (P key) (some-eq _ _ e) (Evolves-induction key keep r (start event now))

  pub reachable_induction :
      (key : String)
      → ((event : Event) (now : ℕ) → P key (new_job key event now))
      → ((a b : Job) → Move inspect key a b → P key a → P key b)
      → (calls : List Call) {job : Job}
      → lookup key (jobs_on (steps hash inspect calls fresh)) ≡ some job
      → P key job
  unfolding lookup
  reachable_induction key start keep calls h =
      taken_in_induction key start keep ((steps-Advances hash inspect calls fresh).tracks tt key) h

has_value {ℓ} : {A : Type ℓ} (o : Option A) → is_some o ≡ true → (a : A) × (o ≡ some a)
has_value none h = cc
has_value (some a) h = (a, refl)

differs :
    (review : Review) (worker : Option String)
    → worker ≡ some review.reviewer
    → reviewer_differs (some review) worker ≡ true
    → ⊥
differs review worker same h = ground (arith, eq_iff review.reviewer review.reviewer)

module _ (inspect : String → Reference) (key : String) where
  Move-IsSound : (a b : Job) → Move inspect key a b → IsSound key a → IsSound key b
  Move-IsSound a b (lapses now at) h = lapse-IsSound now key h at
  Move-IsSound a b (leases worker token seconds now waits) h =
      lease-IsSound now key worker token seconds h waits
  Move-IsSound a b (drafts token draft worker now valid leased held) h =
      with_draft-IsSound now key draft worker h (check_lease-running a token now leased) held
  Move-IsSound a b (fails token reason is_blocked now leased) h =
      failed-IsSound now key is_blocked reason h (check_lease-running a token now leased)
  Move-IsSound a b (requeues reason now waits) h = requeued-IsSound now key reason h waits
  Move-IsSound a b (reviews review ready other) h =
      with_review-IsSound review.at key review h ready other
  Move-IsSound a b (publishes now done) h = as_published-IsSound now key h done

  -- A draft that a job holds has passed the tests of `submit` for that job's key.
  abbrev pub HasCheckedDraft : String → Job → Type 0
  HasCheckedDraft k job =
      (draft : Draft) → job.draft ≡ some draft → check_draft inspect k draft ≡ ok tt

  Move-HasCheckedDraft :
      (a b : Job) → Move inspect key a b → HasCheckedDraft key a → HasCheckedDraft key b
  unfolding lapse lease with_draft failed requeued with_review as_published transition
  Move-HasCheckedDraft a b (lapses now at) h = h
  Move-HasCheckedDraft a b (leases worker token seconds now waits) h = h
  Move-HasCheckedDraft a b (drafts token draft worker now valid leased held) h =
      λ d e. subst (λ x. check_draft inspect key x ≡ ok tt) (some-eq draft d e) valid
  Move-HasCheckedDraft a b (fails token reason is_blocked now leased) h = h
  Move-HasCheckedDraft a b (requeues reason now waits) h = λ d e. cc
  Move-HasCheckedDraft a b (reviews review ready other) h = h
  Move-HasCheckedDraft a b (publishes now done) h = λ d e. h d (ground arith)

module _ (hash : Event → String) (inspect : String → Reference) where
  -- After any calls from an empty directory, every job in queue.json is sound: it stands under its
  -- own identifier; it has a lease token exactly while it is running, and then a deadline; a draft
  -- exactly when it is draft_ready, reviewed or published; a review exactly when it is reviewed or
  -- published, by somebody other than its worker; its history ends with its status; and its
  -- attempts are the number of `running` entries in its history.
  pub reachable-IsSound :
      (calls : List Call) (key : String) {job : Job}
      → lookup key (jobs_on (steps hash inspect calls fresh)) ≡ some job
      → IsSound key job
  reachable-IsSound calls key h =
      reachable_induction hash inspect IsSound key (new_job-IsSound key) (Move-IsSound inspect key)
        calls h

  new_job-HasCheckedDraft :
      (key : String) (event : Event) (now : ℕ)
      → HasCheckedDraft inspect key key (new_job key event now)
  unfolding new_job transition
  new_job-HasCheckedDraft key event now = λ d e. cc

  -- After any calls from an empty directory, a published job has a draft that passed all tests of
  -- `submit` for its key, and a review whose reviewer is not the job's worker.
  pub published-is_reviewed :
      (calls : List Call) (key : String) {job : Job}
      → lookup key (jobs_on (steps hash inspect calls fresh)) ≡ some job
      → job.status ≡ published
      → (draft : Draft) × (review : Review) × (job.draft ≡ some draft)
        × (check_draft inspect key draft ≡ ok tt)
        × (job.review ≡ some review)
        × (job.worker ≢ some review.reviewer)
  published-is_reviewed calls key {job} h at =
      let sound = reachable-IsSound calls key h in
      let (draft, e) = has_value job.draft (ground arith) in
      let (review, f) = has_value job.review (ground arith) in
      (
        draft,
        review,
        e,
        reachable_induction hash inspect (HasCheckedDraft inspect key) key
            (new_job-HasCheckedDraft key) (Move-HasCheckedDraft inspect key) calls h draft e,
        f,
        λ same.
            differs review job.worker same
              (subst (λ r. reviewer_differs r job.worker ≡ true) f sound.distinct),
      )
