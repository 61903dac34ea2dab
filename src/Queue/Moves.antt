-- ===== src/Queue/Moves.antt =====
-- probes/review_queue.py: what the methods may do to one job, as a step relation.
use awesome_private_inferenc.Prelude.{
  ℕ, String, ◌≡◌, Bool, true, false, ◌||◌, ◌==◌, string_eq, option_eq, Option, none, some, eq_iff,
  Bool-cases, inl, inr,
}
use mathlib.Core.Path.{subst}
use awesome_private_inferenc.Prelude.Dict.{Dict, lookup, insert, lookup-insert}
use awesome_private_inferenc.Result.{ok}
use awesome_private_inferenc.Queue.Jobs.{
  running, draft_ready, reviewed, published, status_eq, Event, Review, Job,
}
use awesome_private_inferenc.Queue.Intake.{new_job}
use awesome_private_inferenc.Queue.Lease.{lapse, lease, is_candidate, check_lease}
use awesome_private_inferenc.Queue.Drafts.{
  Draft, Reference, check_draft, with_draft, failed, requeued, is_requeueable,
}
use awesome_private_inferenc.Queue.Decisions.{with_review, as_published}

module _ (inspect : String → Reference) where
  -- One change of the job that is held under `key`, with the tests that lead to it.
  pub data Move (key : String) : Job → Job → Type 0 where
    lapses : (now : ℕ) {job : Job} → job.status ≡ running → Move key job (lapse now job)
    leases :
        (worker token : String) (seconds now : ℕ) {job : Job}
        → is_candidate job ≡ true
        → Move key job (lease worker seconds token now job)
    drafts :
        (token : String) (draft : Draft) (worker : String) (now : ℕ) {job : Job}
        → check_draft inspect key draft ≡ ok tt
        → check_lease job token now ≡ ok tt
        → job.worker ≡ some worker
        → Move key job (with_draft draft now worker job)
    fails :
        (token reason : String) (is_blocked : Bool) (now : ℕ) {job : Job}
        → check_lease job token now ≡ ok tt
        → Move key job (failed is_blocked reason now job)
    requeues :
        (reason : String) (now : ℕ) {job : Job}
        → is_requeueable job ≡ true
        → Move key job (requeued reason now job)
    reviews :
        (review : Review) {job : Job}
        → job.status ≡ draft_ready
        → (job.worker == some review.reviewer) ≡ false
        → Move key job (with_review review job)
    publishes :
        (now : ℕ) {job : Job}
        → (job.status == reviewed || job.status == published) ≡ true
        → Move key job (as_published key now job)

  pub data Evolves (key : String) (job : Job) : Job → Type 0 where
    still : Evolves key job job
    on : {b c : Job} → Evolves key job b → Move key b c → Evolves key job c

  pub Evolves-trans :
      (key : String) {a b c : Job} → Evolves key a b → Evolves key b c → Evolves key a c
  Evolves-trans key r still = r
  Evolves-trans key r (on s m) = on (Evolves-trans key r s) m

  -- What may stand under a key afterwards: nothing new, a job that was taken in and moved on, or
  -- the job that stood there, moved on. No job goes away.
  pub data Follows (key : String) : Option Job → Option Job → Type 0 where
    absent : Follows key none none
    taken_in :
        (event : Event) (now : ℕ) {job : Job}
        → Evolves key (new_job key event now) job
        → Follows key none (some job)
    moved : {a b : Job} → Evolves key a b → Follows key (some a) (some b)

  pub Follows-refl : (key : String) (o : Option Job) → Follows key o o
  Follows-refl key none = absent
  Follows-refl key (some job) = moved still

  pub Follows-trans :
      (key : String) {a b c : Option Job} → Follows key a b → Follows key b c → Follows key a c
  Follows-trans key absent s = s
  Follows-trans key (taken_in event now r) (moved s) = taken_in event now (Evolves-trans key r s)
  Follows-trans key (moved r) (moved s) = moved (Evolves-trans key r s)

  abbrev pub Tracks : Dict String Job → Dict String Job → Type 0
  Tracks before after = (key : String) → Follows key (lookup key before) (lookup key after)

  pub Tracks-refl : (d : Dict String Job) → Tracks d d
  Tracks-refl d key = Follows-refl key (lookup key d)

  pub Tracks-trans : (a b c : Dict String Job) → Tracks a b → Tracks b c → Tracks a c
  Tracks-trans a b c r s key = Follows-trans key (r key) (s key)

  -- An assignment under one key follows, if what is assigned follows what stood there.
  pub Tracks-insert :
      (key : String) (job : Job) (d : Dict String Job)
      → Follows key (lookup key d) (some job)
      → Tracks d (insert key job d)
  Tracks-insert key job d h j = rw lookup-insert (elim (Bool-cases (key == j)) [
    | inl same ↦ rw same (subst (λ i. Follows i (lookup i d) (some job)) ((eq_iff key j).0 same) h)
    | inr other ↦ rw other (Follows-refl j (lookup j d))
  ])
