-- ===== src/Queue/Choice.antt =====
-- probes/review_queue.py: the choice that `claim` makes.
use awesome_private_inferenc.Prelude.{
  ℕ, String, ◌≡◌, refl, true, false, ◌==◌, string_eq, option_eq, Option, none, some, [], ◌∷◌, arith,
  sym, ap, ◌∙◌, some-eq, Option-cases, inl, inr, ◌⊎◌, if◌then◌else◌, leb,
}
use mathlib.Core.Path.{subst}
use awesome_private_inferenc.Prelude.Dict.{
  Dict, lookup, insert, lookup-insert_self, Distinct, Distinct-of_keys, Every,
}
use awesome_private_inferenc.Result.{ok, >>=-eq-ok, ok-injective}
use awesome_private_inferenc.Queue.Jobs.{running, status_eq, Job, State}
use awesome_private_inferenc.Queue.Lease.{
  lapse, lease, is_candidate, expire, expire_all, comes_before, first_candidate, hand_out,
  claim_body,
}
use awesome_private_inferenc.Queue.Drafts.{Reference}
use awesome_private_inferenc.Queue.Invariant.{IsSound}
use awesome_private_inferenc.Queue.Methods.{
  expire_all-Tracks, first_candidate_sound, first_candidate-least, first_candidate-eq-none,
}

abbrev nowhere : String → Reference
nowhere s = record {
  scheme = "";
  netloc = "";
  absolute = false;
  inside_root = false;
  is_file = false;
}

expire_returns :
    (now : ℕ) (key : String) (job : Job) → IsSound key job → (j : Job) × (expire now job ≡ ok j)
unfolding expire
expire_returns now key job h = elim (Option-cases job.lease_until) [
  | inl missing ↦ (job, ground arith)
  | inr (until, e) ↦ (
    if job.status == running then (if leb until now then lapse now job else job) else job,
    ground arith,
  )
]

-- On sound jobs the loop over expired leases does not raise.
pub expire_all_returns :
    (now : ℕ) (jobs : Dict String Job)
    → Every IsSound jobs
    → (jobs' : Dict String Job) × (expire_all now jobs ≡ ok jobs')
unfolding expire_all
expire_all_returns now [] h = ([], refl)
expire_all_returns now ((key, job) ∷ jobs) h =
    let (j, e) = expire_returns now key job h.0 in
    let (js, f) = expire_all_returns now jobs h.1 in ((key, j) ∷ js, rw (e, f) refl)

-- What a successful claim did: the waiting jobs after the expiry of leases, and the least of them
-- under a lease, or nothing where none waits.
pub record Handed (worker token : String) (seconds now : ℕ) (jobs : Dict String Job)
    (state' : State) (job : Job) : Type 0 where
  pub key : String
  pub chosen : Job
  pub found : lookup key jobs ≡ some chosen
  pub waiting : is_candidate chosen ≡ true
  pub leased : job ≡ lease worker seconds token now chosen
  pub written : lookup key state'.jobs ≡ some job
  pub least :
      (k : String) (other : Job)
      → lookup k jobs ≡ some other
      → is_candidate other ≡ true
      → comes_before other chosen ≡ false

handed :
    (worker token : String) (seconds now : ℕ) (state state' : State) (jobs : Dict String Job)
    (choice : Option (String × Job)) (job : Job)
    → Distinct jobs
    → first_candidate jobs ≡ choice
    → hand_out worker seconds token now state jobs choice ≡ (some job, state')
    → Handed worker token seconds now jobs state' job
unfolding hand_out
handed worker token seconds now state state' jobs none job d e h = absurd (ground arith)
handed worker token seconds now state state' jobs (some (key, chosen)) job d e h =
    let (found, waits, _) = first_candidate_sound jobs d e in
    let same : lease worker seconds token now chosen ≡ job =
      some-eq _ _ (ap {A = Option Job × State} (λ p. p.0) h) in
    record {
      key = key;
      chosen = chosen;
      found = found;
      waiting = waits;
      leased = sym same;
      written =
          subst (λ (s : State). lookup key s.jobs ≡ some job)
            (ap {A = Option Job × State} (λ p. p.1) h)
            (lookup-insert_self key _ jobs ∙ ap some same);
      least = first_candidate-least jobs key chosen e;
    }

-- Where the dict of jobs holds each key once: a claim that returns a job has leased, of the jobs that wait once expired leases have lapsed, one
-- that no other waiting job comes before by (priority, created_at, event_id); it holds the new
-- token, worker and deadline, and is what queue.json holds under its key.
pub claim-least :
    (worker token : String) (seconds now : ℕ) (state state' : State) (job : Job)
    → Distinct state.jobs
    → claim_body worker seconds token now state ≡ ok (some job, state')
    → (jobs : Dict String Job) × (expire_all now state.jobs ≡ ok jobs)
      × Handed worker token seconds now jobs state' job
unfolding claim_body
claim-least worker token seconds now state state' job d h =
    let (jobs, e, r) = >>=-eq-ok (expire_all now state.jobs) _ h in
    let (same, _) = expire_all-Tracks nowhere now state.jobs jobs e in
    (
      jobs,
      e,
      handed worker token seconds now state state' jobs (first_candidate jobs) job
          (Distinct-of_keys state.jobs jobs same d) refl (ok-injective r),
    )

-- On sound jobs a claim returns: a job, or nothing, and then no job waits.
pub claim-returns :
    (worker token : String) (seconds now : ℕ) (state : State)
    → Every IsSound state.jobs
    → (jobs : Dict String Job) × (expire_all now state.jobs ≡ ok jobs)
      × (((job : Job) × (state' : State) × (claim_body worker seconds token now state
              ≡ ok (some job, state')))
          ⊎ ((claim_body worker seconds token now state ≡ ok (none, record state { jobs = jobs }))
              × ((key : String) (other : Job)
                  → lookup key jobs ≡ some other
                  → is_candidate other ≡ false)))
unfolding claim_body hand_out
claim-returns worker token seconds now state h =
    let (jobs, e) = expire_all_returns now state.jobs h in
    (
      jobs,
      e,
      elim (Option-cases (first_candidate jobs)) [
        | inl empty ↦
            inr (rw (e, empty) refl, λ key other. first_candidate-eq-none jobs key other empty)
        | inr ((key, chosen), some_waits) ↦ inl (
          lease worker seconds token now chosen,
          record state { jobs = insert key (lease worker seconds token now chosen) jobs },
          rw (e, some_waits) refl,
        )
      ],
    )
