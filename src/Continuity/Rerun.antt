-- ===== src/Continuity/Rerun.antt =====
-- probes/continuity.py: what `persist_events` leaves, and what it does when it runs again.
use awesome_private_inferenc.Prelude.{
  ℕ, ◌≡◌, refl, ap, sym, ◌∙◌, Bool, false, Option, none, some, List, [], ◌∷◌, Eq, ◌==◌, nat_eq,
  list_eq, All, Bool-cases, Option-cases, inl, inr, beq_refl, list_beq_iff,
}
use mathlib.Core.Path.{subst}
use awesome_private_inferenc.Prelude.Dict.{Dict, lookup, insert, lookup-insert, lookup-insert_self}
use awesome_private_inferenc.Result.{ok, err, >>=-eq-ok, ok-injective}
use awesome_private_inferenc.Continuity.Persist.{
  PersistError, collision, file_exists, same_or, persist_one, persist_events,
}

module _ {E : Type 0} ⦃e : Eq E⦄ (id : E → List ℕ) where
  -- A directory that has every file of another one, with the same event.
  abbrev pub Extends : Dict (List ℕ) E → Dict (List ℕ) E → Type 0
  Extends files files' = (k : List ℕ) (v : E) → lookup k files ≡ some v → lookup k files' ≡ some v

  same_or-eq-ok :
      (error : PersistError) (stored event : E) (files : Dict (List ℕ) E)
      (r : Dict (List ℕ) E × Bool)
      → same_or id error stored event files ≡ ok r
      → (stored ≡ event) × (r.0 ≡ files)
  same_or-eq-ok error stored event files r h = elim (Bool-cases (stored == event)) [
    | inl same ↦ (
      (e.beq_iff stored event).0 same,
      ap (λ (x : Dict (List ℕ) E × Bool). x.0) (sym (ok-injective (rw same at h))),
    )
    | inr other ↦ absurd (cc (rw other at h))
  ]

  fresh-Extends :
      (k : List ℕ) (v : E) (files : Dict (List ℕ) E)
      → lookup k files ≡ none
      → Extends files (insert k v files)
  fresh-Extends k v files absent j w h = elim (Bool-cases (k == j)) [
    | inl same ↦
        absurd
          (cc (absent, h, ap (λ (x : List ℕ). lookup x files) ((list_beq_iff nat_eq k j).0 same)))
    | inr other ↦ lookup-insert k j v files ∙ (rw other h)
  ]

  persist_one-eq-ok :
      (raced : List ℕ → Option E) (event : E) (files : Dict (List ℕ) E) (r : Dict (List ℕ) E × Bool)
      → persist_one id raced event files ≡ ok r
      → (lookup (id event) r.0 ≡ some event) × Extends files r.0
  unfolding persist_one
  persist_one-eq-ok raced event files r h = elim (Option-cases (lookup (id event) files)) [
    | inr (stored, found) ↦
        let (same, files_same) = same_or-eq-ok collision stored event files r (rw found at h) in
        (rw files_same (found ∙ ap some same), λ k v l. rw files_same l)
    | inl absent ↦ elim (Option-cases (raced (id event))) [
      | inl alone ↦
          let result = ok-injective (rw (absent, alone) at h) in
          subst
            (λ (x : Dict (List ℕ) E × Bool).
              (lookup (id event) x.0 ≡ some event) × Extends files x.0)
            result
            (lookup-insert_self (id event) event files, fresh-Extends (id event) event files absent)
      | inr (other, appeared) ↦
          let (same, files_same) =
            same_or-eq-ok file_exists other event (insert (id event) other files) r
              (rw (absent, appeared) at h) in
          (
            rw files_same (lookup-insert_self (id event) other files ∙ ap some same),
            rw files_same (fresh-Extends (id event) other files absent),
          )
    ]
  ]

  kept-All :
      (files files' : Dict (List ℕ) E) (events : List E)
      → Extends files files'
      → All (λ v. lookup (id v) files ≡ some v) events
      → All (λ v. lookup (id v) files' ≡ some v) events
  kept-All files files' [] x h = tt
  kept-All files files' (v ∷ vs) x h = (x (id v) v h.0, kept-All files files' vs x h.1)

  -- Where `persist_events` succeeds, each event's file holds that event, and every file that was there
  -- before still holds what it held; this also when another process creates files in between.
  pub persist_events-stored :
      (raced : List ℕ → Option E) (events : List E) (files : Dict (List ℕ) E)
      (r : Dict (List ℕ) E × List E)
      → persist_events id raced events files ≡ ok r
      → All (λ v. lookup (id v) r.0 ≡ some v) events × Extends files r.0
  unfolding persist_events
  persist_events-stored raced [] files r h = (
    tt,
    subst (λ (x : Dict (List ℕ) E × List E). Extends files x.0) (ok-injective h) (λ k v l. l),
  )
  persist_events-stored raced (event ∷ events) files r h =
      let (one, a, h₁) = >>=-eq-ok (persist_one id raced event files) _ h in
      let (rest, b, last) = >>=-eq-ok (persist_events id raced events one.0) _ h₁ in
      let (stored, extends) = persist_one-eq-ok raced event files one a in
      let (all_stored, later) = persist_events-stored raced events one.0 rest b in
      let same : rest.0 ≡ r.0 = ap (λ (x : Dict (List ℕ) E × List E). x.0) (ok-injective last) in
      subst
        (λ (x : Dict (List ℕ) E).
          All (λ v. lookup (id v) x ≡ some v) (event ∷ events) × Extends files x)
        same ((later (id event) event stored, all_stored), λ k v l. later k v (extends k v l))

  persist_one-again :
      (raced : List ℕ → Option E) (event : E) (files : Dict (List ℕ) E)
      → lookup (id event) files ≡ some event
      → persist_one id raced event files ≡ ok (files, false)
  unfolding persist_one
  persist_one-again raced event files found = rw (found, beq_refl event) refl

  persist_events-again :
      (raced : List ℕ → Option E) (events : List E) (files : Dict (List ℕ) E)
      → All (λ v. lookup (id v) files ≡ some v) events
      → persist_events id raced events files ≡ ok (files, [])
  unfolding persist_events
  persist_events-again raced [] files h = refl
  persist_events-again raced (event ∷ events) files h =
      rw (persist_one-again raced event files h.0, persist_events-again raced events files h.1) refl

  -- Each event is created once: running `persist_events` again on the directory that it left succeeds,
  -- creates nothing and changes nothing.
  pub persist_events-persist_events :
      (raced raced' : List ℕ → Option E) (events : List E) (files : Dict (List ℕ) E)
      (r : Dict (List ℕ) E × List E)
      → persist_events id raced events files ≡ ok r
      → persist_events id raced' events r.0 ≡ ok (r.0, [])
  persist_events-persist_events raced raced' events files r h =
      persist_events-again raced' events r.0 (persist_events-stored raced events files r h).0

  -- An event whose file holds another one is an error, and nothing is written for it.
  pub persist_one-rewritten :
      (raced : List ℕ → Option E) (event stored : E) (events : List E) (files : Dict (List ℕ) E)
      → lookup (id event) files ≡ some stored
      → (stored == event) ≡ false
      → persist_events id raced (event ∷ events) files ≡ err collision
  unfolding persist_events persist_one
  persist_one-rewritten raced event stored events files found differs = rw (found, differs) refl
