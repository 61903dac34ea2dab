-- ===== src/Queue/Exclusive.antt =====
-- probes/review_queue.py: a held lease and the body of each method.
use awesome_private_inferenc.Prelude.{
  ℕ, ◌<◌, String, ◌≡◌, refl, Bool, true, false, ◌==◌, ◌||◌, ◌&&◌, string_eq, option_eq, Option,
  none, some, List, [], ◌∷◌, arith, some-eq, sym, ap, ◌∙◌, eq_iff, str_eq, Bool-cases, inl, inr,
  &&-eq-true,
}
use mathlib.Core.Path.{subst}
use awesome_private_inferenc.Prelude.Dict.{
  Dict, lookup, insert, lookup-insert, Distinct, Distinct-of_keys,
}
use awesome_private_inferenc.Result.{Result, ok, >>=-eq-ok, ok-injective, present, require}
use awesome_private_inferenc.Queue.Jobs.{
  running, draft_ready, reviewed, published, status_eq, Event, Review, Job, State, Error, key_error,
  not_requeueable, not_a_distinct_review, not_reviewed,
}
use awesome_private_inferenc.Queue.Store.{Decision}
use awesome_private_inferenc.Queue.Intake.{admit, event_key, ingest_event, ingest_all, ingest_body}
use awesome_private_inferenc.Queue.Lease.{
  expire, expire_all, first_candidate, hand_out, claim_body, check_lease,
}
use awesome_private_inferenc.Queue.Drafts.{
  Draft, Reference, is_requeueable, submit_body, fail_body, requeue_body,
}
use awesome_private_inferenc.Queue.Decisions.{
  review_body, decision_of, write_decision, publish_body,
}
use awesome_private_inferenc.Queue.Methods.{
  expire_all-Tracks, first_candidate_sound, found_at, holds, jobs_of,
}
use awesome_private_inferenc.Queue.Calls.{Call, claims, submits, fails}

-- The call comes before the deadline, if it could end the lease, and does not show the job's token.
abbrev pub Spares : String → String → ℕ → Call → Type 0
Spares key token until (claims worker seconds fresh_token now) = now < until
Spares key token until (submits k t draft now) = (k == key && t == token) ≡ false
Spares key token until (fails k t reason is_blocked now) = (k == key && t == token) ≡ false
Spares key token until _ = Unit

module _ (key : String) (job : Job) (token : String) (until : ℕ) (at : job.status ≡ running)
    (held : job.lease_token ≡ some token) (ends : job.lease_until ≡ some until) where
  -- A write under a key where the job does not stand.
  elsewhere :
      (d : Dict String Job) (k : String) (b : Job) {a : Job}
      → lookup key d ≡ some job
      → lookup k d ≡ some a
      → (k ≡ key → a ≡ job → ⊥)
      → lookup key (insert k b d) ≡ some job
  elsewhere d k b {a} h found apart = rw lookup-insert (elim (Bool-cases (str_eq k key)) [
    | inl same ↦
        let e : k ≡ key = (eq_iff k key).0 same in
        absurd (apart e (some-eq a job (sym found ∙ ap (λ (i : String). lookup i d) e ∙ h)))
    | inr other ↦ rw other h
  ])

  abbrev pub Frames : {A : Type 0} → (State → Result Error (A × State)) → Type 0
  Frames {A = A} body =
      (state state' : State) (a : A)
      → Distinct state.jobs
      → lookup key state.jobs ≡ some job
      → body state ≡ ok (a, state')
      → lookup key state'.jobs ≡ some job

  expire_frames : (now : ℕ) → now < until → (j : Job) → j ≡ job → expire now j ≡ ok j
  unfolding expire
  expire_frames now early j e = ground (arith)

  expire_all_frames :
      (now : ℕ) (jobs jobs' : Dict String Job)
      → now < until
      → lookup key jobs ≡ some job
      → expire_all now jobs ≡ ok jobs'
      → lookup key jobs' ≡ some job
  unfolding expire_all lookup
  expire_all_frames now [] jobs' early h e = cc
  expire_all_frames now ((k, j) ∷ jobs) jobs' early h e =
      let (j', f, r) = >>=-eq-ok (expire now j) _ e in
      let (rest, g, s) = >>=-eq-ok (expire_all now jobs) _ r in
      subst (λ d. lookup key d ≡ some job) (ok-injective s)
        (elim (Bool-cases (str_eq k key)) [
          | inl same ↦
              let e' : j ≡ job = ground arith in
              let kept : j' ≡ j = ok-injective (sym f ∙ expire_frames now early j e') in
              rw same (ap some (kept ∙ e'))
          | inr other ↦ rw other (expire_all_frames now jobs rest early (ground arith) g)
        ])

  check_lease_frames :
      (k t : String) (now : ℕ) (a : Job)
      → (k == key && t == token) ≡ false
      → check_lease a t now ≡ ok tt
      → k ≡ key
      → a ≡ job
      → ⊥
  unfolding check_lease
  check_lease_frames k t now a spared leased e f =
      ground (arith, eq_iff k key, eq_iff t token, eq_iff token t)

  pub submit_body-Frames :
      (k t : String) (draft : Draft) (now : ℕ)
      → (k == key && t == token) ≡ false
      → Frames (submit_body k t draft now)
  unfolding submit_body
  submit_body-Frames k t draft now spared state state' a d h e =
      let (j, f, r) = >>=-eq-ok (present key_error (lookup k state.jobs)) _ e in
      let (_, leased, s) = >>=-eq-ok (check_lease j t now) _ r in
      let (worker, w, v) = >>=-eq-ok (present key_error j.worker) _ s in
      subst (λ x. lookup key x ≡ some job) (jobs_of v)
        (elsewhere state.jobs k _ h (found_at k state.jobs f)
          (check_lease_frames k t now j spared leased))

  pub fail_body-Frames :
      (k t reason : String) (is_blocked : Bool) (now : ℕ)
      → (k == key && t == token) ≡ false
      → Frames (fail_body k t reason is_blocked now)
  unfolding fail_body
  fail_body-Frames k t reason is_blocked now spared state state' a d h e =
      let (j, f, r) = >>=-eq-ok (present key_error (lookup k state.jobs)) _ e in
      let (_, leased, s) = >>=-eq-ok (check_lease j t now) _ r in
      subst (λ x. lookup key x ≡ some job) (jobs_of s)
        (elsewhere state.jobs k _ h (found_at k state.jobs f)
          (check_lease_frames k t now j spared leased))

  pub requeue_body-Frames : (k reason : String) (now : ℕ) → Frames (requeue_body k reason now)
  unfolding requeue_body
  requeue_body-Frames k reason now state state' a d h e =
      let (j, f, r) = >>=-eq-ok (present key_error (lookup k state.jobs)) _ e in
      let (_, waits, s) = >>=-eq-ok (require _ not_requeueable) _ r in
      let waiting : is_requeueable j ≡ true = holds not_requeueable _ waits in
      subst (λ x. lookup key x ≡ some job) (jobs_of s)
        (elsewhere state.jobs k _ h (found_at k state.jobs f) (λ _ same. ground arith))

  pub review_body-Frames : (k : String) (rev : Review) → Frames (review_body k rev)
  unfolding review_body
  review_body-Frames k rev state state' a d h e =
      let (j, f, r) = >>=-eq-ok (present key_error (lookup k state.jobs)) _ e in
      let (_, fits, s) = >>=-eq-ok (require _ not_a_distinct_review) _ r in
      let (ready, other) =
        &&-eq-true (j.status == draft_ready) (holds not_a_distinct_review _ fits) in
      subst (λ x. lookup key x ≡ some job) (jobs_of s)
        (elsewhere state.jobs k _ h (found_at k state.jobs f) (λ _ same. ground arith))

  pub publish_body-Frames :
      (k : String) (now : ℕ) (files : Dict String Decision)
      → (state state' : State) (files' : Dict String Decision) → lookup key state.jobs ≡ some job
      → publish_body k now state files ≡ ok (files', state')
      → lookup key state'.jobs ≡ some job
  unfolding publish_body
  publish_body-Frames k now files state state' files' h e =
      let (j, f, r) = >>=-eq-ok (present key_error (lookup k state.jobs)) _ e in
      let (_, done, s) = >>=-eq-ok (require _ not_reviewed) _ r in
      let (decision, c, t) = >>=-eq-ok (decision_of j) _ s in
      let (written, w, u) = >>=-eq-ok (write_decision k decision files (lookup k files)) _ t in
      let over : (j.status == reviewed || j.status == published) ≡ true =
        holds not_reviewed _ done in
      subst (λ x. lookup key x ≡ some job) (jobs_of u)
        (elsewhere state.jobs k _ h (found_at k state.jobs f) (λ _ same. ground arith))

  hand_out_frames :
      (worker t : String) (seconds now : ℕ) (state : State) (jobs : Dict String Job)
      (chosen : Option (String × Job))
      → Distinct jobs
      → lookup key jobs ≡ some job
      → first_candidate jobs ≡ chosen
      → lookup key (hand_out worker seconds t now state jobs chosen).1.jobs ≡ some job
  unfolding hand_out
  hand_out_frames worker t seconds now state jobs none d h e = h
  hand_out_frames worker t seconds now state jobs (some (k, j)) d h e =
      let (found, waits, _) = first_candidate_sound jobs d e in
      elsewhere jobs k _ h found (λ _ same. ground arith)

  pub claim_body-Frames :
      (worker t : String) (seconds now : ℕ)
      → now < until
      → (inspect : String → Reference) → Frames (claim_body worker seconds t now)
  unfolding claim_body
  claim_body-Frames worker t seconds now early inspect state state' a d h e =
      let (jobs, f, r) = >>=-eq-ok (expire_all now state.jobs) _ e in
      let (same, tracks) = expire_all-Tracks inspect now state.jobs jobs f in
      subst (λ x. lookup key x ≡ some job)
        (ap {A = Option Job × State} (λ p. p.1.jobs) (ok-injective r))
        (hand_out_frames worker t seconds now state jobs (first_candidate jobs)
          (Distinct-of_keys state.jobs jobs same d)
          (expire_all_frames now state.jobs jobs early h f) refl)

  admit_frames :
      (now : ℕ) (k : String) (event : Event) (known : Option Job) (state state' : State)
      (added added' : ℕ)
      → lookup k state.jobs ≡ known
      → lookup key state.jobs ≡ some job
      → admit now k event known (state, added) ≡ ok (state', added')
      → lookup key state'.jobs ≡ some job
  unfolding admit
  admit_frames now k event none state state' added added' new h e =
      subst (λ x. lookup key x ≡ some job) (ap {A = State × ℕ} (λ p. p.0.jobs) (ok-injective e))
        (rw lookup-insert (ground (arith, eq_iff k key)))
  admit_frames now k event (some j) state state' added added' old h e =
      let unchanged : state.jobs ≡ state'.jobs = ground arith in
      subst (λ x. lookup key x ≡ some job) unchanged h

  ingest_all_frames :
      (hash : Event → String) (now : ℕ) (events : List Event) (state state' : State)
      (added added' : ℕ)
      → lookup key state.jobs ≡ some job
      → ingest_all hash now events (state, added) ≡ ok (state', added')
      → lookup key state'.jobs ≡ some job
  unfolding ingest_all ingest_event
  ingest_all_frames hash now [] state state' added added' h e =
      subst (λ x. lookup key x ≡ some job) (ap {A = State × ℕ} (λ p. p.0.jobs) (ok-injective e)) h
  ingest_all_frames hash now (event ∷ events) state state' added added' h e =
      let ((mid, n), f, r) = >>=-eq-ok (ingest_event hash now event (state, added)) _ e in
      let (k, g, s) = >>=-eq-ok (event_key hash event) _ f in
      ingest_all_frames hash now events mid state' n added'
        (admit_frames now k _ (lookup k state.jobs) state mid added n refl h s) r

  pub ingest_body-Frames :
      (hash : Event → String) (events : List Event) (now : ℕ) → Frames (ingest_body hash events now)
  unfolding ingest_body
  ingest_body-Frames hash events now state state' a d h e =
      let ((mid, n), f, r) = >>=-eq-ok (ingest_all hash now events (state, 0)) _ e in
      subst (λ x. lookup key x ≡ some job) (ap {A = ℕ × State} (λ p. p.1.jobs) (ok-injective r))
        (ingest_all_frames hash now events state mid 0 n h f)
