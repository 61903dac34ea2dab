-- ===== src/Queue/Diagram.antt =====
-- probes/review_queue.py: the diagram of statuses, and the walk along it that a job's history records.
use awesome_private_inferenc.Prelude.{
  ℕ, String, string_eq, ◌≡◌, refl, true, false, ◌==◌, ◌||◌, Option, some, List, arith, some-eq, sym,
  ap, ◌∙◌, [], ◌∷◌, ◌++◌, Bool-cases, inl, inr,
}
use mathlib.Core.List.{append-nil, append_assoc}
use mathlib.Core.Path.{subst}
use awesome_private_inferenc.Prelude.Dict.{lookup, Distinct}
use awesome_private_inferenc.Queue.Jobs.{
  Status, queued, running, retryable_failure, draft_ready, blocked, reviewed, published, status_eq,
  status_beq_iff, Event, Entry, Job, transition,
}
use awesome_private_inferenc.Queue.Store.{Disk}
use awesome_private_inferenc.Queue.Lease.{lapse, lease}
use awesome_private_inferenc.Queue.Drafts.{Reference, with_draft, failed, requeued}
use awesome_private_inferenc.Queue.Decisions.{with_review, as_published}
use awesome_private_inferenc.Queue.Moves.{
  Move, lapses, leases, drafts, fails, requeues, reviews, publishes, Evolves, still, on, Follows,
  moved,
}
use awesome_private_inferenc.Queue.Calls.{Call, steps, jobs_on, steps-Advances}
use awesome_private_inferenc.Queue.Reachable.{check_lease-running}

infix 40 ◌⟶◌
pub data ◌⟶◌ : Status → Status → Type 0 where
  take : queued ⟶ running
  retry : retryable_failure ⟶ running
  expire : running ⟶ retryable_failure
  block : running ⟶ blocked
  finish : running ⟶ draft_ready
  unblock : blocked ⟶ queued
  again : retryable_failure ⟶ queued
  return : draft_ready ⟶ queued
  judge : draft_ready ⟶ reviewed
  release : reviewed ⟶ published

-- The entries lead from one status to another, each along one edge.
abbrev pub Walks : Status → List Entry → Status → Type 0
Walks s [] t = s ≡ t
Walks s (e ∷ es) t = (s ⟶ e.status) × Walks e.status es t

-- The history of the later job is that of the earlier one and a walk between their statuses.
pub record IsRecorded (job later : Job) : Type 0 where
  pub added : List Entry
  pub extends : later.history ≡ job.history ++ added
  pub walked : Walks job.status added later.status

Walks-++ :
    (s t u : Status) (es fs : List Entry) → Walks s es t → Walks t fs u → Walks s (es ++ fs) u
Walks-++ s t u [] fs h k = subst (λ r. Walks r fs u) (sym h) k
Walks-++ s t u (e ∷ es) fs h k = (h.0, Walks-++ e.status t u es fs h.1 k)

IsRecorded-refl : (job : Job) → IsRecorded job job
IsRecorded-refl job = record { added = []; extends = sym (append-nil job.history); walked = refl }

IsRecorded-trans : (a b c : Job) → IsRecorded a b → IsRecorded b c → IsRecorded a c
IsRecorded-trans a b c r q = record {
  added = r.added ++ q.added;
  extends =
      q.extends
      ∙ ap (λ (l : List Entry). l ++ q.added) r.extends
      ∙ append_assoc a.history r.added q.added;
  walked = Walks-++ a.status b.status c.status r.added q.added r.walked q.walked;
}

one_entry :
    (a b : Job) (entry : Entry)
    → b.history ≡ a.history ++ entry ∷ []
    → entry.status ≡ b.status
    → a.status ⟶ entry.status
    → IsRecorded a b
one_entry a b entry written at edge = record {
  added = entry ∷ [];
  extends = written;
  walked = (edge, at);
}

candidate_edge : (s : Status) → (s == queued || s == retryable_failure) ≡ true → s ⟶ running
candidate_edge queued h = take
candidate_edge retryable_failure h = retry
candidate_edge _ h = absurd (ground arith)

requeue_edge :
    (s : Status)
    → (s == blocked || (s == retryable_failure || s == draft_ready)) ≡ true
    → s ⟶ queued
requeue_edge blocked h = unblock
requeue_edge retryable_failure h = again
requeue_edge draft_ready h = return
requeue_edge _ h = absurd (ground arith)

module _ (inspect : String → Reference) (key : String) where
  published-IsRecorded :
      (now : ℕ) (job : Job)
      → (job.status == reviewed || job.status == published) ≡ true
      → IsRecorded job (as_published key now job)
  unfolding as_published transition
  published-IsRecorded now job h = elim (Bool-cases (job.status == published)) [
    | inl done ↦ rw done (IsRecorded-refl job)
    | inr not_yet ↦
        let at : job.status ≡ reviewed =
          (status_beq_iff job.status reviewed).0 (ground (arith, not_yet, h)) in
        rw not_yet (one_entry job _ _ refl refl (subst (λ s. s ⟶ published) (sym at) release))
  ]

  Move-IsRecorded : (a b : Job) → Move inspect key a b → IsRecorded a b
  unfolding lapse lease with_draft failed requeued with_review transition
  Move-IsRecorded a b (lapses now at) =
      one_entry a _ _ refl refl (subst (λ s. s ⟶ retryable_failure) (sym at) expire)
  Move-IsRecorded a b (leases worker token seconds now waits) =
      one_entry a _ _ refl refl (candidate_edge a.status waits)
  Move-IsRecorded a b (drafts token draft worker now valid leased held) =
      one_entry a _ _ refl refl
        (subst (λ s. s ⟶ draft_ready) (sym (check_lease-running a token now leased)) finish)
  Move-IsRecorded a b (fails token reason true now leased) =
      one_entry a _ _ refl refl
        (subst (λ s. s ⟶ blocked) (sym (check_lease-running a token now leased)) block)
  Move-IsRecorded a b (fails token reason false now leased) =
      one_entry a _ _ refl refl
        (subst (λ s. s ⟶ retryable_failure) (sym (check_lease-running a token now leased)) expire)
  Move-IsRecorded a b (requeues reason now waits) =
      one_entry a _ _ refl refl (requeue_edge a.status waits)
  Move-IsRecorded a b (reviews review ready other) =
      one_entry a _ _ refl refl (subst (λ s. s ⟶ reviewed) (sym ready) judge)
  Move-IsRecorded a b (publishes now done) = published-IsRecorded now a done

  Evolves-IsRecorded : (a b : Job) → Evolves inspect key a b → IsRecorded a b
  Evolves-IsRecorded a b still = IsRecorded-refl a
  Evolves-IsRecorded a b (on {b = c} r m) =
      IsRecorded-trans a c b (Evolves-IsRecorded a c r) (Move-IsRecorded c b m)

  -- No move changes a published job: a lease, a draft, a requeue and a review all want another
  -- status, and publishing it again leaves it as it is.
  Move-published : (a b : Job) → Move inspect key a b → a.status ≡ published → b ≡ a
  unfolding as_published
  Move-published a b (lapses now at) h = cc
  Move-published a b (leases worker token seconds now waits) h = absurd (ground arith)
  Move-published a b (drafts token draft worker now valid leased held) h =
      cc (check_lease-running a token now leased)
  Move-published a b (fails token reason is_blocked now leased) h =
      cc (check_lease-running a token now leased)
  Move-published a b (requeues reason now waits) h = absurd (ground arith)
  Move-published a b (reviews review ready other) h = cc
  Move-published a b (publishes now done) h = rw h

  Evolves-published : (a b : Job) → Evolves inspect key a b → a.status ≡ published → b ≡ a
  Evolves-published a b still h = refl
  Evolves-published a b (on {b = c} r m) h =
      let same : c ≡ a = Evolves-published a c r h in
      Move-published c b m (ap (λ (j : Job). j.status) same ∙ h) ∙ same

moved_on :
    (inspect : String → Reference) (key : String) {o o' : Option Job} {job : Job}
    → Follows inspect key o o'
    → o ≡ some job
    → (job' : Job) × (o' ≡ some job') × Evolves inspect key job job'
moved_on inspect key Follows.absent h = cc
moved_on inspect key (Follows.taken_in event now r) h = cc
moved_on inspect key (moved {a = a} {b = b} r) h =
    (b, refl, subst (λ j. Evolves inspect key j b) (some-eq _ _ h) r)

module _ (hash : Event → String) (inspect : String → Reference) where
  -- From any files whose dict of jobs holds each key once, and after any calls, every job is still
  -- under its key; its history is the earlier one with further entries, and their statuses lead from
  -- the earlier status to the present one, each along one edge of the diagram.
  pub calls_follow_diagram :
      (calls : List Call) (disk : Disk) (key : String) {job : Job}
      → Distinct (jobs_on disk)
      → lookup key (jobs_on disk) ≡ some job
      → (job' : Job) × (lookup key (jobs_on (steps hash inspect calls disk)) ≡ some job')
        × IsRecorded job job'
  calls_follow_diagram calls disk key {job} d h =
      let (job', found, r) =
        moved_on inspect key ((steps-Advances hash inspect calls disk).tracks d key) h in
      (job', found, Evolves-IsRecorded inspect key job job' r)

  -- A published job is final: from any files whose dict of jobs holds each key once, after any calls
  -- the job under its key is the same record.
  pub published_final :
      (calls : List Call) (disk : Disk) (key : String) {job : Job}
      → Distinct (jobs_on disk)
      → lookup key (jobs_on disk) ≡ some job
      → job.status ≡ published
      → lookup key (jobs_on (steps hash inspect calls disk)) ≡ some job
  published_final calls disk key {job} d h at =
      let (job', found, r) =
        moved_on inspect key ((steps-Advances hash inspect calls disk).tracks d key) h in
      found ∙ ap some (Evolves-published inspect key job job' r at)
