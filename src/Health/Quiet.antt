-- ===== src/Health/Quiet.antt =====
-- probes/health.py: when `check` finds nothing.
use awesome_private_inferenc.Prelude.{
  ℕ, String, ◌≡◌, ◌≢◌, refl, ap, Bool, true, false, Option, none, some, List, [], ◌∷◌, ◌++◌,
  string_eq, option_eq, All,
}
use awesome_private_inferenc.Prelude.Dict.{Dict}
use awesome_private_inferenc.Health.{
  Row, Latest, QueueJob, QueueStatus, Source, References, Finding, missing_reference_capture,
  is_empty, either, stale, found, check_rows, check_providers, check_generated, check_latest,
  is_overdue, check_jobs, check_queue, is_unhealthy, check_sources, check_mirrors, check_references,
  check,
}

append-eq-nil : (xs ys : List Finding) → xs ++ ys ≡ [] → (xs ≡ []) × (ys ≡ [])
append-eq-nil [] ys h = (refl, h)
append-eq-nil (x ∷ xs) ys h = cc

module _ (parse_aware : String → Option ℕ) (now : ℕ) where
  found-eq-nil :
      (test : Bool) (finding : Finding) → found parse_aware now test finding ≡ [] → test ≡ false
  found-eq-nil true finding h = cc
  found-eq-nil false finding h = refl

  abbrev pub IsRecent : ℕ → Row → Type 0
  IsRecent max_age row =
      stale parse_aware now (either row.last_attempt_at row.verified_at) max_age ≡ false

  -- The latest view is there, was made in time, and so was the last attempt on each of its routes.
  abbrev pub IsCurrent : ℕ → Option Latest → Type 0
  IsCurrent max_age none = ⊥
  IsCurrent max_age (some view) =
      (at : String) × (view.generated_at ≡ some at)
      × (stale parse_aware now (some at) max_age ≡ false)
      × All {A = String × List Row} (λ entry. All (IsRecent max_age) entry.1) view.attestations

  abbrev pub IsTended : ℕ → Option QueueStatus → Type 0
  IsTended queue_age none = Unit
  IsTended queue_age (some queue) =
      (stale parse_aware now queue.generated_at queue_age ≡ false)
      × All (λ job. is_overdue parse_aware now job ≡ false) queue.jobs

  abbrev pub IsCaptured : ℕ → Option References → Type 0
  IsCaptured max_age none = Unit
  IsCaptured max_age (some references) =
      (references.observations ≢ [])
      × All (λ source. is_unhealthy parse_aware now max_age source ≡ false) references.observations
      × All {A = String × Bool} (λ entry. entry.1 ≡ false) references.mirror_disagrees

  rows-All :
      (max_age : ℕ) (provider : String) (rows : List Row)
      → check_rows parse_aware now max_age provider rows ≡ []
      → All (IsRecent max_age) rows
  unfolding check_rows
  rows-All max_age provider [] h = tt
  rows-All max_age provider (row ∷ rows) h =
      let (first, rest) = append-eq-nil (found parse_aware now _ _) _ h in
      (found-eq-nil _ _ first, rows-All max_age provider rows rest)

  providers-All :
      (max_age : ℕ) (views : Dict String (List Row))
      → check_providers parse_aware now max_age views ≡ []
      → All {A = String × List Row} (λ entry. All (IsRecent max_age) entry.1) views
  unfolding check_providers
  providers-All max_age [] h = tt
  providers-All max_age ((provider, rows) ∷ views) h =
      let (first, rest) = append-eq-nil (check_rows parse_aware now max_age provider rows) _ h in
      (rows-All max_age provider rows first, providers-All max_age views rest)

  latest-IsCurrent :
      (max_age : ℕ) (latest : Option Latest)
      → check_latest parse_aware now max_age latest ≡ []
      → IsCurrent max_age latest
  unfolding check_latest
  latest-IsCurrent max_age none h = cc
  latest-IsCurrent max_age (some view) h =
      let (first, rest) =
        append-eq-nil (check_generated parse_aware now max_age view.generated_at) _ h in
      generated view.generated_at refl first (providers-All max_age view.attestations rest)
    where
      generated :
          (at : Option String)
          → view.generated_at ≡ at
          → check_generated parse_aware now max_age at ≡ []
          → All {A = String × List Row} (λ entry. All (IsRecent max_age) entry.1) view.attestations
          → IsCurrent max_age (some view)
      generated none e h rows = absurd (cc h)
      generated (some at) e h rows = (at, e, found-eq-nil _ _ h, rows)

  jobs-All :
      (jobs : List QueueJob)
      → check_jobs parse_aware now jobs ≡ []
      → All (λ job. is_overdue parse_aware now job ≡ false) jobs
  unfolding check_jobs
  jobs-All [] h = tt
  jobs-All (job ∷ jobs) h =
      let (first, rest) = append-eq-nil (found parse_aware now _ _) _ h in
      (found-eq-nil _ _ first, jobs-All jobs rest)

  queue-IsTended :
      (queue_age : ℕ) (queue : Option QueueStatus)
      → check_queue parse_aware now queue_age queue ≡ []
      → IsTended queue_age queue
  unfolding check_queue
  queue-IsTended queue_age none h = tt
  queue-IsTended queue_age (some queue) h =
      let (first, rest) = append-eq-nil (found parse_aware now _ _) _ h in
      (found-eq-nil _ _ first, jobs-All queue.jobs rest)

  sources-All :
      (max_age : ℕ) (sources : List Source)
      → check_sources parse_aware now max_age sources ≡ []
      → All (λ source. is_unhealthy parse_aware now max_age source ≡ false) sources
  unfolding check_sources
  sources-All max_age [] h = tt
  sources-All max_age (source ∷ sources) h =
      let (first, rest) = append-eq-nil (found parse_aware now _ _) _ h in
      (found-eq-nil _ _ first, sources-All max_age sources rest)

  mirrors-All :
      (mirrors : Dict String Bool)
      → check_mirrors parse_aware now mirrors ≡ []
      → All {A = String × Bool} (λ entry. entry.1 ≡ false) mirrors
  unfolding check_mirrors
  mirrors-All [] h = tt
  mirrors-All ((name, disagrees) ∷ mirrors) h =
      let (first, rest) = append-eq-nil (found parse_aware now disagrees _) _ h in
      (found-eq-nil _ _ first, mirrors-All mirrors rest)

  references-IsCaptured :
      (max_age : ℕ) (references : Option References)
      → check_references parse_aware now max_age references ≡ []
      → IsCaptured max_age references
  unfolding check_references
  references-IsCaptured max_age none h = tt
  references-IsCaptured max_age (some references) h =
      let (first, rest) =
        append-eq-nil
          (found parse_aware now (is_empty parse_aware now references.observations)
            missing_reference_capture)
          _ h in
      let (sources, mirrors) =
        append-eq-nil (check_sources parse_aware now max_age references.observations) _ rest in
      (
        λ e. cc (
          found-eq-nil (is_empty parse_aware now references.observations) missing_reference_capture
              first,
          ap (is_empty parse_aware now) e,
        ),
        sources-All max_age references.observations sources,
        mirrors-All references.mirror_disagrees mirrors,
      )

  -- Silence is health: where `check` finds nothing, the latest view is there and was made in time, and
  -- so was the last attempt on each route; the queue's status, if it was given, was made in time and
  -- no lease in it is overdue; and the references, if given, hold captures, each observed in time, and
  -- no mirror that disagrees.
  pub quiet-IsHealthy :
      (latest : Option Latest) (queue : Option QueueStatus) (references : Option References)
      (max_age queue_age : ℕ)
      → check parse_aware now latest queue references max_age queue_age ≡ []
      → IsCurrent max_age latest × IsTended queue_age queue × IsCaptured max_age references
  unfolding check
  quiet-IsHealthy latest queue references max_age queue_age h =
      let (first, rest) = append-eq-nil (check_latest parse_aware now max_age latest) _ h in
      let (second, third) = append-eq-nil (check_queue parse_aware now queue_age queue) _ rest in
      (
        latest-IsCurrent max_age latest first,
        queue-IsTended queue_age queue second,
        references-IsCaptured max_age references third,
      )
