-- ===== src/Verifiers/Aci/Measured.antt =====
-- verifiers/aci.py: what the replay of an event log depends on.
use awesome_private_inferenc.Prelude.{
  ℕ, ◌≡◌, refl, ap, ◌∙◌, false, Option, none, some, List, [], ◌∷◌, ◌++◌, arith, if◌then◌else◌, ◌==◌,
  nat_eq, list_eq, option_eq, select, Bool-cases, Option-cases, inl, inr, nat_beq,
}
use awesome_private_inferenc.Verifiers.Hex.{Bytes, to_hex}
use awesome_private_inferenc.Verifiers.Aci.EventLog.{
  Event, stays, bind, zeros, digest_bytes, replay_from, replayed_rtmr3, events_bind_payloads,
  is_named, only, unique_event,
}

data Register (e : Event) : Type 0 where
  missing : e.imr ≡ none → Register e
  third : e.imr ≡ some 3 → Register e
  other : (n : ℕ) → e.imr ≡ some n → nat_beq n 3 ≡ false → Register e

register : (e : Event) → Register e
register e = elim (Option-cases e.imr) [
  | inl empty ↦ missing empty
  | inr (n, found) ↦ elim (Bool-cases (nat_beq n 3)) [
    | inl same ↦ third (found ∙ ap some (ground (arith, same)))
    | inr differs ↦ other n found differs
  ]
]

module _ (sha384 : Bytes → Bytes) where
  replay_from-select :
      (r : Bytes) (es : List Event)
      → replay_from sha384 r (select stays es) ≡ replay_from sha384 r es
  unfolding replay_from
  replay_from-select r [] = refl
  replay_from-select r (e ∷ es) = elim (register e) [
    | missing no_imr ↦ rw no_imr refl
    | third found ↦ rw found (elim (Option-cases (digest_bytes e)) [
      | inl no_digest ↦ rw no_digest refl
      | inr (d, at_d) ↦ rw at_d (replay_from-select (sha384 (r ++ d)) es)
    ])
    | other n found differs ↦ rw (found, differs) (replay_from-select r es)
  ]

  events_bind_payloads-select :
      (es : List Event)
      → events_bind_payloads sha384 (select stays es) ≡ events_bind_payloads sha384 es
  unfolding events_bind_payloads
  events_bind_payloads-select [] = refl
  events_bind_payloads-select (e ∷ es) = elim (register e) [
    | missing no_imr ↦ rw no_imr refl
    | third found ↦ rw (found, events_bind_payloads-select es) refl
    | other n found differs ↦ rw (found, differs) (events_bind_payloads-select es)
  ]

  named-select :
      (name : List ℕ) (es : List Event)
      → select (is_named name) (select stays es) ≡ select (is_named name) es
  named-select name [] = refl
  named-select name (e ∷ es) = elim (register e) [
    | missing no_imr ↦ rw no_imr (named-select name es)
    | third found ↦ rw (found, named-select name es) refl
    | other n found differs ↦ rw (found, differs) (named-select name es)
  ]

  -- Only IMR3 entries count: without the entries of the other registers, which the service may
  -- strip, the log replays to the same RTMR3 or raises alike, binds its payloads alike, and has the
  -- same unique event of each name.
  pub imr3_only :
      (log : List Event) (name : List ℕ)
      → (replayed_rtmr3 sha384 (select stays log) ≡ replayed_rtmr3 sha384 log)
        × (events_bind_payloads sha384 (select stays log) ≡ events_bind_payloads sha384 log)
        × (unique_event (select stays log) name ≡ unique_event log name)
  unfolding replayed_rtmr3 unique_event
  imr3_only log name = (
    ap (λ (r : Option Bytes). bind r (λ x. some (to_hex x))) (replay_from-select (zeros 48) log),
    events_bind_payloads-select log,
    ap only (named-select name log),
  )

-- The measured sequence: the digests of the IMR3 entries, in order.
unfoldable pub measured : List Event → Option (List Bytes)
measured [] = some []
measured (e ∷ es) =
    let rest = measured es in
    let here = bind (digest_bytes e) (λ d. bind rest (λ ds. some (d ∷ ds))) in
    bind e.imr (λ n. if n == 3 then here else rest)

abbrev pub fold_extend : (Bytes → Bytes) → Bytes → List Bytes → Bytes
fold_extend sha384 r [] = r
fold_extend sha384 r (d ∷ ds) = fold_extend sha384 (sha384 (r ++ d)) ds

-- The replay is the fold of the register's extension over the measured sequence: the digests of the
-- IMR3 entries, in order; and it raises exactly where an entry has no register or an IMR3 entry no
-- digest in hex.
pub replay_from-measured :
    (sha384 : Bytes → Bytes) (r : Bytes) (es : List Event)
    → replay_from sha384 r es ≡ bind (measured es) (λ ds. some (fold_extend sha384 r ds))
unfolding replay_from measured
replay_from-measured sha384 r [] = refl
replay_from-measured sha384 r (e ∷ es) = elim (register e) [
  | missing no_imr ↦ rw (no_imr) refl
  | third found ↦ rw (found) (elim (Option-cases (digest_bytes e)) [
    | inl no_digest ↦ rw no_digest refl
    | inr (d, at_d) ↦
        rw (at_d, replay_from-measured sha384 (sha384 (r ++ d)) es)
          (elim (Option-cases (measured es)) [
            | inl none_there ↦ rw none_there refl
            | inr (ds, there) ↦ rw there refl
          ])
  ])
  | other n found differs ↦ rw (found, differs) (replay_from-measured sha384 r es)
]
