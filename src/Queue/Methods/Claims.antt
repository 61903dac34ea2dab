-- ===== src/Queue/Methods/Claims.antt =====
-- probes/review_queue.py: `expire_all` and the choice of `claim`, over the jobs that queue.json holds.
use mathlib.Core.Path.{subst}
use awesome_private_inferenc.Prelude.{
  ℕ, String, ◌≡◌, refl, sym, ap, true, false, ◌==◌, string_eq, none, some, [], ◌∷◌, arith, eq_iff,
  Bool-cases, Option-cases, inl, inr, ◌⊎◌, str_eq, contains,
}
use awesome_private_inferenc.Prelude.Dict.{Dict, keys, lookup, Distinct}
use awesome_private_inferenc.Prelude.Text.{text_le_trans, text_le-total}
use awesome_private_inferenc.Result.{ok, >>=-eq-ok, ok-injective}
use awesome_private_inferenc.Queue.Jobs.{running, status_eq, status_beq_iff, Job}
use awesome_private_inferenc.Queue.Lease.{
  lapse, is_candidate, expire, expire_all, comes_before, first_candidate,
}
use awesome_private_inferenc.Queue.Drafts.{Reference}
use awesome_private_inferenc.Queue.Moves.{lapses, Evolves, still, on, Follows-refl, moved, Tracks}

-- What `expire` returns: the job, or the job with its lease over.
pub expire-eq-ok :
    (now : ℕ) (job : Job) {job' : Job}
    → expire now job ≡ ok job'
    → (job' ≡ job) ⊎ ((job.status ≡ running) × (job' ≡ lapse now job))
unfolding expire
expire-eq-ok now job h = ground (arith, status_beq_iff job.status running)

module _ (inspect : String → Reference) where
  expire-Evolves :
      (now : ℕ) (key : String) (job : Job) {job' : Job}
      → (job' ≡ job) ⊎ ((job.status ≡ running) × (job' ≡ lapse now job))
      → Evolves inspect key job job'
  expire-Evolves now key job (inl same) = subst (Evolves inspect key job) (sym same) still
  expire-Evolves now key job (inr (run, over)) =
      subst (Evolves inspect key job) (sym over) (on still (lapses now run))

  -- `expire_all` keeps the keys, and lets each job at most lapse.
  pub expire_all-Tracks :
      (now : ℕ) (jobs jobs' : Dict String Job)
      → expire_all now jobs ≡ ok jobs'
      → (keys jobs' ≡ keys jobs) × Tracks inspect jobs jobs'
  unfolding expire_all lookup
  expire_all-Tracks now [] jobs' h =
      subst (λ d. (keys d ≡ []) × Tracks inspect [] d) (ok-injective h)
        (refl, λ key. Follows-refl inspect key none)
  expire_all-Tracks now ((key, job) ∷ jobs) jobs' h =
      let (job', e, r) = >>=-eq-ok (expire now job) _ h in
      let (rest, f, s) = >>=-eq-ok (expire_all now jobs) _ r in
      let (same, tracks) = expire_all-Tracks now jobs rest f in
      subst (λ d. (keys d ≡ key ∷ keys jobs) × Tracks inspect ((key, job) ∷ jobs) d)
        (ok-injective s)
        (
          ap (◌∷◌ key) same,
          λ j. elim (Bool-cases (key == j)) [
            | inl here ↦ rw here (moved (expire-Evolves now j job (expire-eq-ok now job e)))
            | inr there ↦ rw there (tracks j)
          ],
        )

-- The least candidate is the first entry, or the least of the others.
chosen :
    (key : String) (job : Job) (jobs : Dict String Job) {c : String × Job}
    → first_candidate ((key, job) ∷ jobs) ≡ some c
    → ((c ≡ (key, job)) × (is_candidate job ≡ true)) ⊎ (first_candidate jobs ≡ some c)
unfolding first_candidate
chosen key job jobs h = ground arith

-- The chosen job stands under its key, and was waiting.
pub first_candidate_sound :
    (jobs : Dict String Job) {key : String} {job : Job}
    → Distinct jobs
    → first_candidate jobs ≡ some (key, job)
    → (lookup key jobs ≡ some job) × (is_candidate job ≡ true) × (contains key (keys jobs) ≡ true)
unfolding lookup
first_candidate_sound [] d h = unfold first_candidate in cc
first_candidate_sound ((k, j) ∷ jobs) {key} {job} d h = elim (chosen k j jobs h) [
  | inl (same, waits) ↦ ground (arith, eq_iff k key)
  | inr rest ↦
      let (found, waits, has) = first_candidate_sound jobs {key = key} {job = job} d.1 rest in
      let other : str_eq k key ≡ false = ground (arith, eq_iff k key) in
      (rw other found, waits, rw has (ground arith))
]

-- None is chosen only if none waits.
pub first_candidate-eq-none :
    (jobs : Dict String Job) (key : String) (job : Job)
    → first_candidate jobs ≡ none
    → lookup key jobs ≡ some job
    → is_candidate job ≡ false
unfolding first_candidate lookup
first_candidate-eq-none [] key job h found = cc
first_candidate-eq-none ((k, j) ∷ jobs) key job h found =
    ground (arith, first_candidate-eq-none jobs key job)

not_before_trans :
    (a b c : Job) → comes_before a b ≡ false → comes_before b c ≡ false → comes_before a c ≡ false
unfolding comes_before
not_before_trans a b c h k = ground (arith, text_le_trans c.event_id b.event_id a.event_id)

comes_before-asymm : (a b : Job) → comes_before a b ≡ true → comes_before b a ≡ false
unfolding comes_before
comes_before-asymm a b h = ground (arith, text_le-total b.event_id a.event_id)

comes_before_irrefl : (a : Job) → comes_before a a ≡ false
unfolding comes_before
comes_before_irrefl a = ground (arith, text_le-total a.event_id a.event_id)

-- No waiting job comes before the chosen one.
pub first_candidate-least :
    (jobs : Dict String Job) (key : String) (job : Job)
    → first_candidate jobs ≡ some (key, job)
    → (k : String) (other : Job) → lookup k jobs ≡ some other
    → is_candidate other ≡ true
    → comes_before other job ≡ false
unfolding lookup first_candidate
first_candidate-least [] key job h k other found waits = cc
first_candidate-least ((k₀, j) ∷ jobs) key job h k other found waits =
    elim (Option-cases (first_candidate jobs)) [
      | inl last ↦ ground (arith, first_candidate-eq-none jobs k other last, comes_before_irrefl j)
      | inr ((k', o), more) ↦ ground (
        arith,
        first_candidate-least jobs k' o more k other,
        comes_before_irrefl j,
        comes_before-asymm o j,
        not_before_trans other o j,
      )
    ]
