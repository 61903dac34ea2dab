-- ===== src/Cadence/Distinct.antt =====
-- probes/quality.py and probes/trajectory.py: what the counters of the cadence loop count.
use mathlib.Core.Path.{subst}
use awesome_private_inferenc.Prelude.{
  ℕ, ◌+◌, String, ◌≡◌, refl, sym, ◌∙◌, ap, true, false, ◌||◌, some, List, [], ◌∷◌, string_eq, ◌==◌,
  arith, contains, length, eq_iff, Bool-cases, inl, inr, if◌then◌else◌,
}
use awesome_private_inferenc.Cadence.{Tally, start, visit, tally_from, tally}

-- How often a version differs from the one before it.
abbrev pub changes_after : String → List String → ℕ
changes_after p [] = 0
changes_after p (v ∷ vs) = (if v == p then 0 else 1) + changes_after v vs

-- No version twice.
abbrev pub IsDistinct : List String → Type 0
IsDistinct [] = Unit
IsDistinct (v ∷ vs) = (contains v vs ≡ false) × IsDistinct vs

-- Once a version was seen, `seen` holds the last one, and one version more than `novel` counts.
record IsCounted (t : Tally) (p : String) : Type 0 where
  last : t.prev ≡ some p
  has_last : contains p t.seen ≡ true
  distinct : IsDistinct t.seen
  counted : length t.seen ≡ t.novel + 1

-- What the loop leaves, against what it began with: the versions that it came by are seen, and each
-- neighbour that differs is counted.
record IsExtended (t t' : Tally) (p : String) (vs : List String) : Type 0 where
  seen : (x : String) → contains x t'.seen ≡ (contains x t.seen || contains x vs)
  changed : t'.novel + t'.revisit ≡ t.novel + t.revisit + changes_after p vs

visit_known :
    (t : Tally) (p v : String)
    → IsCounted t p
    → contains v t.seen ≡ true
    → ((visit t v).seen ≡ t.seen) × ((visit t v).novel ≡ t.novel)
unfolding visit
visit_known t p v h known = ground arith

visit_new :
    (t : Tally) (p v : String)
    → IsCounted t p
    → contains v t.seen ≡ false
    → ((visit t v).seen ≡ v ∷ t.seen) × ((visit t v).novel ≡ t.novel + 1)
unfolding visit
visit_new t p v h unknown = ground (arith, eq_iff v p)

visit_change :
    (t : Tally) (p v : String)
    → t.prev ≡ some p
    → ((visit t v).novel + (visit t v).revisit ≡ t.novel + t.revisit + (if v == p then 0 else 1))
      × ((visit t v).prev ≡ some v)
unfolding visit
visit_change t p v h = ground arith

visit-IsCounted : (t : Tally) (p v : String) → IsCounted t p → IsCounted (visit t v) v
visit-IsCounted t p v h = elim (Bool-cases (contains v t.seen)) [
  | inl known ↦
      let (same, novel) = visit_known t p v h known in
      record {
        last = (visit_change t p v h.last).1;
        has_last = ap (contains v) same ∙ known;
        distinct = subst IsDistinct (sym same) h.distinct;
        counted = omega (arith, h.counted, novel, ap {A = List String} length same);
      }
  | inr unknown ↦
      let (more, novel) = visit_new t p v h unknown in
      record {
        last = (visit_change t p v h.last).1;
        has_last = ap (contains v) more ∙ ground (arith, eq_iff v v);
        distinct = subst IsDistinct (sym more) (unknown, h.distinct);
        counted = omega (arith, h.counted, novel, ap {A = List String} length more);
      }
]

visit_seen :
    (t : Tally) (p v x : String)
    → IsCounted t p
    → contains x (visit t v).seen ≡ (contains x t.seen || v == x)
visit_seen t p v x h = elim (Bool-cases (contains v t.seen)) [
  | inl known ↦ ap (contains x) (visit_known t p v h known).0 ∙ elim (Bool-cases (v == x)) [
    | inl same ↦ ground (arith, subst (λ y. contains y t.seen ≡ true) ((eq_iff v x).0 same) known)
    | inr other ↦ ground arith
  ]
  | inr unknown ↦ ap (contains x) (visit_new t p v h unknown).0 ∙ ground arith
]

tally_from-IsExtended :
    (t : Tally) (p : String) (vs : List String)
    → IsCounted t p
    → IsExtended t (tally_from t vs) p vs
unfolding tally_from
tally_from-IsExtended t p [] h = record { seen = λ x. ground arith; changed = omega arith }
tally_from-IsExtended t p (v ∷ vs) h =
    let r = tally_from-IsExtended (visit t v) v vs (visit-IsCounted t p v h) in
    record {
      seen = λ x. ground (arith, r.seen x, visit_seen t p v x h);
      changed = omega (arith, r.changed, (visit_change t p v h.last).0);
    }

tally_from-IsCounted :
    (t : Tally) (p : String) (vs : List String)
    → IsCounted t p
    → IsDistinct (tally_from t vs).seen
      × (length (tally_from t vs).seen ≡ (tally_from t vs).novel + 1)
unfolding tally_from
tally_from-IsCounted t p [] h = (h.distinct, h.counted)
tally_from-IsCounted t p (v ∷ vs) h =
    tally_from-IsCounted (visit t v) v vs (visit-IsCounted t p v h)

first_sum : (v : String) → (visit start v).novel + (visit start v).revisit ≡ 0
unfolding visit
first_sum v = refl

first_seen : (v : String) → (visit start v).seen ≡ v ∷ []
unfolding visit
first_seen v = refl

first-IsCounted : (v : String) → IsCounted (visit start v) v
unfolding visit
first-IsCounted v = record {
  last = refl;
  has_last = ground (arith, eq_iff v v);
  distinct = (refl, tt);
  counted = refl;
}

-- Of a target that was observed at all, the set that the loop builds holds each version of the dated
-- sequence once and nothing else; the newly observed identities are its members less the first one,
-- and the newly observed ones and the revisits together are the neighbours that differ.
pub tally-changes :
    (v : String) (vs : List String)
    → let t = tally (v ∷ vs) in
      IsDistinct t.seen
      × ((x : String) → contains x t.seen ≡ contains x (v ∷ vs))
      × (length t.seen ≡ t.novel + 1)
      × (t.novel + t.revisit ≡ changes_after v vs)
unfolding tally tally_from
tally-changes v vs =
    let (distinct, counted) = tally_from-IsCounted (visit start v) v vs (first-IsCounted v) in
    let r = tally_from-IsExtended (visit start v) v vs (first-IsCounted v) in
    (
      distinct,
      λ x. ground (arith, r.seen x, ap (contains x) (first_seen v)),
      counted,
      omega (arith, r.changed, first_sum v),
    )
