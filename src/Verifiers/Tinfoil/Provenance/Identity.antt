-- ===== src/Verifiers/Tinfoil/Provenance/Identity.antt =====
-- verifiers/tinfoil.py: who may sign a release of a repository.
use awesome_private_inferenc.Prelude.{
  ℕ, ◌≡◌, ◌≢◌, ◌↔◌, refl, ap, sym, ◌∙◌, true, not, some, List, [], ◌∷◌, ◌++◌, nat_beq, arith,
  Bool-cases, Option-cases, inl, inr, nat_beq_iff, some-eq, &&-eq-true,
}
use awesome_private_inferenc.Prelude.Text.{codes}
use awesome_private_inferenc.Verifiers.Tinfoil.Provenance.{
  after_prefix, up_to_at, no_at, is_empty, workflow_path, san_matches, ref_matches, rest_matches,
}

after_prefix-append : (p t : List ℕ) → after_prefix p (p ++ t) ≡ some t
unfolding after_prefix
after_prefix-append [] t = refl
after_prefix-append (c ∷ cs) t = ground (arith, after_prefix-append cs t)

after_prefix-eq : (p t rest : List ℕ) → after_prefix p t ≡ some rest → t ≡ p ++ rest
unfolding after_prefix
after_prefix-eq [] t rest h = some-eq t rest h
after_prefix-eq (c ∷ cs) [] rest h = cc
after_prefix-eq (c ∷ cs) (d ∷ t) rest h = elim (Bool-cases (nat_beq c d)) [
  | inl same ↦
      let tails = after_prefix-eq cs t rest (rw same at h) in
      λ i. sym ((nat_beq_iff c d).0 same) i ∷ tails i
  | inr other ↦ absurd (cc (rw other at h))
]

up_to_at-append :
    (before after : List ℕ)
    → no_at before ≡ true
    → up_to_at (before ++ (64 ∷ after)) ≡ some (before, after)
unfolding up_to_at
up_to_at-append [] after h = refl
up_to_at-append (c ∷ cs) after h = ground (arith, h, up_to_at-append cs after)

up_to_at-eq :
    (t before after : List ℕ)
    → up_to_at t ≡ some (before, after)
    → (no_at before ≡ true) × (t ≡ before ++ (64 ∷ after))
unfolding up_to_at
up_to_at-eq [] before after h = cc
up_to_at-eq (c ∷ cs) before after h = elim (Bool-cases (nat_beq c 64)) [
  | inl same ↦
      let pair = some-eq ([], cs) (before, after) (rw same at h) in
      let first : [] ≡ before = ap (λ (p : List ℕ × List ℕ). p.0) pair in
      let second : cs ≡ after = ap (λ (p : List ℕ × List ℕ). p.1) pair in
      (
        ap no_at (sym first),
        (λ i. (nat_beq_iff c 64).0 same i ∷ second i)
            ∙ ap (λ (l : List ℕ). l ++ (64 ∷ after)) first,
      )
  | inr other ↦ elim (Option-cases (up_to_at cs)) [
    | inl nothing ↦ absurd (cc (rw (other, nothing) at h))
    | inr (p, found) ↦
        let (free, e) = up_to_at-eq cs p.0 p.1 found in
        let here : no_at (c ∷ p.0) ≡ true = rw other free in
        let pair = some-eq (c ∷ p.0, p.1) (before, after) (rw (other, found) at h) in
        let first : c ∷ p.0 ≡ before = ap (λ (q : List ℕ × List ℕ). q.0) pair in
        let second : p.1 ≡ after = ap (λ (q : List ℕ × List ℕ). q.1) pair in
        (
          ap no_at (sym first) ∙ here,
          ap (λ (l : List ℕ). c ∷ l) e ∙ (λ i. first i ++ (64 ∷ second i)),
        )
  ]
]

-- A name in the form that a release's signer has: a workflow of the repository at a tag, where neither
-- the workflow nor the tag is empty or holds an at sign.
pub record IsTagged (repo san : List ℕ) : Type 0 where
  pub workflow : List ℕ
  pub tag : List ℕ
  pub has_workflow : workflow ≢ []
  pub has_tag : tag ≢ []
  pub workflow_no_at : no_at workflow ≡ true
  pub tag_no_at : no_at tag ≡ true
  pub is_san : san ≡ workflow_path repo ++ (workflow ++ (64 ∷ (codes "refs/tags/" ++ tag)))

not_empty-ne : (xs : List ℕ) → (not (is_empty xs) ≡ true) ↔ (xs ≢ [])
not_empty-ne [] = (λ h. cc, λ h. absurd (h refl))
not_empty-ne (x ∷ xs) = (λ h e. cc, λ h. refl)

-- The pattern takes a name just where the name is the repository's workflow path, then a workflow,
-- then `@refs/tags/` and a tag, neither of them empty or with an at sign.
pub san_matches_iff : (repo san : List ℕ) → (san_matches repo san ≡ true) ↔ IsTagged repo san
unfolding san_matches
san_matches_iff repo san = (
  λ h. elim (Option-cases (after_prefix (workflow_path repo) san)) [
    | inl nothing ↦ absurd (cc (rw nothing at h))
    | inr (rest, found) ↦ elim (Option-cases (up_to_at rest)) [
      | inl nothing ↦ absurd (cc (rw (found, nothing) at h))
      | inr ((workflow, ref), split) ↦ elim (Option-cases (after_prefix (codes "refs/tags/") ref)) [
        | inl nothing ↦ absurd (ground (arith, rw (found, split, nothing) at h))
        | inr (tag, is_tag) ↦
            let (some_workflow, tagged) =
              &&-eq-true (not (is_empty workflow)) (rw (found, split, is_tag) at h) in
            let (some_tag, free) = &&-eq-true (not (is_empty tag)) tagged in
            let (no_w, e) = up_to_at-eq rest workflow ref split in
            record {
              workflow = workflow;
              tag = tag;
              has_workflow = (not_empty-ne workflow).0 some_workflow;
              has_tag = (not_empty-ne tag).0 some_tag;
              workflow_no_at = no_w;
              tag_no_at = free;
              is_san =
                  after_prefix-eq (workflow_path repo) san rest found
                  ∙ ap (λ (l : List ℕ). workflow_path repo ++ l)
                      (e
                        ∙ ap (λ (l : List ℕ). workflow ++ (64 ∷ l))
                            (after_prefix-eq (codes "refs/tags/") ref tag is_tag));
            }
      ]
    ]
  ],
  λ t.
      let ref = codes "refs/tags/" ++ t.tag in
      let rest = t.workflow ++ (64 ∷ ref) in
      ap (λ (s : List ℕ). rest_matches (after_prefix (workflow_path repo) s)) t.is_san
      ∙ ap rest_matches (after_prefix-append (workflow_path repo) rest)
      ∙ ap ref_matches (up_to_at-append t.workflow ref t.workflow_no_at)
      ∙ accepted t.workflow t.tag ref (after_prefix-append (codes "refs/tags/") t.tag)
          ((not_empty-ne t.workflow).1 t.has_workflow) ((not_empty-ne t.tag).1 t.has_tag)
          t.tag_no_at,
)
  where
    accepted :
        (workflow tag ref : List ℕ)
        → after_prefix (codes "refs/tags/") ref ≡ some tag
        → not (is_empty workflow) ≡ true
        → not (is_empty tag) ≡ true
        → no_at tag ≡ true
        → ref_matches (some (workflow, ref)) ≡ true
    accepted workflow tag ref a b c d = rw (a, b, c, d) refl
