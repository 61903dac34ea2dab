-- ===== src/Verifiers/Preimage/Withheld.antt =====
-- verifiers/common.py: when the text of a compose file is withheld.
use mathlib.Core.List.{append_assoc}
use awesome_private_inferenc.Prelude.{
  ℕ, zero, suc, ◌-◌, ◌≡◌, refl, ap, sym, ◌∙◌, true, false, none, some, [], ◌∷◌, ◌++◌, length,
  Bool-cases, Option-cases, inl, inr, ◌⊎◌, arith,
}
use mathlib.Core.Path.{subst}
use awesome_private_inferenc.Prelude.{length-append}
use awesome_private_inferenc.Verifiers.Bindings.{drop}
use awesome_private_inferenc.Verifiers.Preimage.Pattern.{IsAssignment, assignment-IsAssignment}
use awesome_private_inferenc.Verifiers.Preimage.{
  Text, assignment, is_literal, has_literal, public_compose_preimage,
}

-- A text holds an assignment whose value is not a reference.
pub record HasLiteral (text : Text) : Type 0 where
  pub before : Text
  pub matched : Text
  pub value : Text
  pub rest : Text
  pub is_part : text ≡ before ++ matched
  pub assigned : IsAssignment matched value rest
  pub literal : is_literal value ≡ true

-- The matches of the pattern in a text, each after the one before it, as a search from the left finds
-- them: every one of them has a reference as its value.
pub data IsClean : Text → Type 0 where
  ends : IsClean []
  passes : {c : ℕ} {cs : Text} → assignment (c ∷ cs) ≡ none → IsClean cs → IsClean (c ∷ cs)
  refers :
      {text value rest : Text}
      → assignment text ≡ some (value, rest)
      → is_literal value ≡ false
      → IsClean rest
      → IsClean text

later : (c : ℕ) (cs : Text) → HasLiteral cs → HasLiteral (c ∷ cs)
later c cs l = record {
  before = c ∷ l.before;
  matched = l.matched;
  value = l.value;
  rest = l.rest;
  is_part = ap (λ (t : Text). c ∷ t) l.is_part;
  assigned = l.assigned;
  literal = l.literal;
}

has_literal-HasLiteral : (skip : ℕ) (text : Text) → has_literal skip text ≡ true → HasLiteral text
unfolding has_literal
has_literal-HasLiteral skip [] h = cc
has_literal-HasLiteral (suc skip) (c ∷ cs) h = later c cs (has_literal-HasLiteral skip cs h)
has_literal-HasLiteral zero (c ∷ cs) h = elim (Option-cases (assignment (c ∷ cs))) [
  | inl nothing ↦ later c cs (has_literal-HasLiteral zero cs (rw nothing at h))
  | inr ((value, rest), found) ↦ elim (Bool-cases (is_literal value)) [
    | inl literal ↦ record {
      before = [];
      matched = c ∷ cs;
      value = value;
      rest = rest;
      is_part = refl;
      assigned = assignment-IsAssignment (c ∷ cs) value rest found;
      literal = literal;
    }
    | inr reference ↦ later c cs (has_literal-HasLiteral _ cs (rw (found, reference) at h))
  ]
]

drop-append : (b rest : Text) → drop (length b) (b ++ rest) ≡ rest
drop-append [] rest = refl
drop-append (x ∷ b) rest = drop-append b rest

after_front :
    (c : ℕ) (cs a : Text) (s : ℕ) (b rest : Text)
    → c ∷ cs ≡ a ++ (s ∷ (b ++ rest))
    → (front : Text) × (cs ≡ front ++ rest)
after_front c cs [] s b rest e = (b, ap (drop 1) e)
after_front c cs (x ∷ a) s b rest e =
    (a ++ (s ∷ b), ap (drop 1) e ∙ sym (append_assoc a (s ∷ b) rest))

-- The search goes on where a match ended.
drop-match :
    (c : ℕ) (cs value rest : Text)
    → IsAssignment (c ∷ cs) value rest
    → drop (length cs - length rest) cs ≡ rest
drop-match c cs value rest m =
    let back = m.second_gap ++ (m.quote ++ value) in
    let joined : m.second_gap ++ (m.quote ++ (value ++ rest)) ≡ back ++ rest =
      ap (λ (l : Text). m.second_gap ++ l) (sym (append_assoc m.quote value rest))
      ∙ sym (append_assoc m.second_gap (m.quote ++ value) rest) in
    let (front, e) = after_front c cs (m.name ++ m.gap) m.separator back rest (
      m.split
      ∙ sym (append_assoc m.name m.gap _)
      ∙ ap (λ (l : Text). (m.name ++ m.gap) ++ (m.separator ∷ l)) joined) in
    let counted : length cs - length rest ≡ length front =
      omega (arith, ap {A = Text} length e, length-append front rest) in
    ap (λ n. drop n cs) counted ∙ ap (drop (length front)) e ∙ drop-append front rest

no_literal-IsClean :
    (skip : ℕ) (text : Text) → has_literal skip text ≡ false → IsClean (drop skip text)
unfolding has_literal
no_literal-IsClean zero [] h = ends
no_literal-IsClean (suc skip) [] h = ends
no_literal-IsClean (suc skip) (c ∷ cs) h = no_literal-IsClean skip cs h
no_literal-IsClean zero (c ∷ cs) h = elim (Option-cases (assignment (c ∷ cs))) [
  | inl nothing ↦ passes nothing (no_literal-IsClean zero cs (rw nothing at h))
  | inr ((value, rest), found) ↦ elim (Bool-cases (is_literal value)) [
    | inl literal ↦ absurd (cc (rw (found, literal) at h))
    | inr reference ↦ refers found reference (
        subst IsClean
          (drop-match c cs value rest (assignment-IsAssignment (c ∷ cs) value rest found))
          (no_literal-IsClean (length cs - length rest) cs (rw (found, reference) at h)))
  ]
]

-- Of a compose file the digest is recorded. Its text is recorded just as it is, where no match of the
-- pattern in it, searched from the left, has a value other than a reference; or else it is withheld,
-- and then it holds an assignment of a secret whose value is not a reference.
pub withheld-HasLiteral :
    (sha256_hex : Text → Text) (compose : Text)
    → let p = public_compose_preimage sha256_hex compose in
      (p.app_compose_sha256 ≡ sha256_hex compose)
      × ((p.withheld ≡ false) × (p.app_compose ≡ some compose) × IsClean compose
          ⊎ (p.withheld ≡ true) × (p.app_compose ≡ none) × HasLiteral compose)
unfolding public_compose_preimage
withheld-HasLiteral sha256_hex compose = (
  refl,
  elim (Bool-cases (has_literal 0 compose)) [
    | inl literal ↦ inr (literal, rw literal refl, has_literal-HasLiteral 0 compose literal)
    | inr clean ↦ inl (clean, rw clean refl, no_literal-IsClean 0 compose clean)
  ],
)
