-- ===== src/Prelude/Dict.antt =====
-- Python's `dict`: the entries in insertion order, one for each key. A key that is assigned again
-- keeps its place.
use Prim.Native.Nat.{◌+◌}
use mathlib.Core.Path.{◌≡◌, refl, sym, subst, ◌∙◌}
use mathlib.Core.Logic.{inl, inr}
use mathlib.Core.Bool.{false}
use mathlib.Core.List.{List, [], ◌∷◌, map}
use mathlib.Core.Option.{Option, none, some}
use native.Mathlib.Omega.{arith}
use awesome_private_inferenc.Prelude.Tests.{if◌then◌else◌, Bool-cases}
use awesome_private_inferenc.Prelude.Equality.{Eq, ◌==◌, beq_refl}
use awesome_private_inferenc.Prelude.Lists.{length, contains}

abbrev pub Dict {ℓ κ} : Type ℓ → Type κ → Type (ℓ ⊔ κ)
Dict K V = List (K × V)

module _ {ℓ κ} {K : Type ℓ} {V : Type κ} ⦃e : Eq K⦄ where
  -- `d.get(k)`
  unfoldable pub lookup : K → Dict K V → Option V
  lookup k [] = none
  lookup k ((j, v) ∷ d) = if j == k then some v else lookup k d

  -- `d[k] = v`
  unfoldable pub insert : K → V → Dict K V → Dict K V
  insert k v [] = (k, v) ∷ []
  insert k v ((j, w) ∷ d) = if j == k then (j, v) ∷ d else (j, w) ∷ insert k v d

  -- `d.setdefault(k, v)`
  unfoldable pub set_default : K → V → Dict K V → Dict K V
  set_default k v [] = (k, v) ∷ []
  set_default k v ((j, w) ∷ d) = if j == k then (j, w) ∷ d else (j, w) ∷ set_default k v d

  pub lookup-insert :
      (k j : K) (v : V) (d : Dict K V)
      → lookup j (insert k v d) ≡ (if k == j then some v else lookup j d)
  unfolding lookup insert
  lookup-insert k j v [] = refl
  lookup-insert k j v ((i, w) ∷ d) =
      ground (arith, e.beq_iff k j, e.beq_iff i k, e.beq_iff i j, lookup-insert k j v d)

  pub lookup-insert_self : (k : K) (v : V) (d : Dict K V) → lookup k (insert k v d) ≡ some v
  lookup-insert_self k v d = simp (lookup-insert, beq_refl)

  pub length-insert :
      (k : K) (v : V) (d : Dict K V)
      → length (insert k v d) ≡ (if contains k (map (λ p. p.0) d) then length d else length d + 1)
  unfolding insert
  length-insert k v [] = omega arith
  length-insert k v ((j, w) ∷ d) = ground (arith, length-insert k v d)

  pub contains-lookup :
      (k : K) (d : Dict K V) → lookup k d ≡ none → contains k (map (λ p. p.0) d) ≡ false
  unfolding lookup
  contains-lookup k [] h = refl
  contains-lookup k ((j, w) ∷ d) h = ground (arith, contains-lookup k d)

-- Every value of the dict, mapped in place.
module _ {ℓ κ μ} {K : Type ℓ} {V : Type κ} {W : Type μ} where
  abbrev pub map_values : (V → W) → Dict K V → Dict K W
  map_values f [] = []
  map_values f ((k, v) ∷ d) = (k, f v) ∷ map_values f d

abbrev pub map_option {ℓ κ} : {V : Type ℓ} {W : Type κ} → (V → W) → Option V → Option W
map_option f none = none
map_option f (some v) = some (f v)

module _ {ℓ κ μ} {K : Type ℓ} {V : Type κ} {W : Type μ} ⦃e : Eq K⦄ where
  pub lookup-map_values :
      (f : V → W) (k : K) (d : Dict K V) → lookup k (map_values f d) ≡ map_option f (lookup k d)
  unfolding lookup
  lookup-map_values f k [] = refl
  lookup-map_values f k ((j, v) ∷ d) = ground (arith, lookup-map_values f k d)

-- What holds of every entry.
module _ {ℓ κ μ} {K : Type ℓ} {V : Type κ} where
  abbrev pub Every : (K → V → Type μ) → Dict K V → Type μ
  Every P [] = Unit
  Every P ((k, v) ∷ d) = P k v × Every P d

module _ {ℓ κ μ} {K : Type ℓ} {V : Type κ} ⦃e : Eq K⦄ (P : K → V → Type μ) where
  pub Every-lookup : (k : K) (d : Dict K V) {v : V} → Every P d → lookup k d ≡ some v → P k v
  unfolding lookup
  Every-lookup k [] h found = cc
  Every-lookup k ((j, w) ∷ d) {v} h found = elim (Bool-cases (e.beq j k)) [
    | inl same ↦
        let value : w ≡ v = ground arith in
        subst (λ i. P i v) ((e.beq_iff j k).0 same) (subst (P j) value h.0)
    | inr other ↦ Every-lookup k d h.1 (rw other at found)
  ]

  pub Every-insert : (k : K) (v : V) (d : Dict K V) → P k v → Every P d → Every P (insert k v d)
  unfolding insert
  Every-insert k v [] p h = (p, tt)
  Every-insert k v ((j, w) ∷ d) p h = elim (Bool-cases (e.beq j k)) [
    | inl same ↦ rw same (subst (λ i. P i v) (sym ((e.beq_iff j k).0 same)) p, h.1)
    | inr other ↦ rw other (h.0, Every-insert k v d p h.1)
  ]

-- A dict holds each key once.
module _ {ℓ κ} {K : Type ℓ} {V : Type κ} where
  abbrev pub keys : Dict K V → List K
  keys = map (λ p. p.0)

module _ {ℓ κ} {K : Type ℓ} {V : Type κ} ⦃e : Eq K⦄ where
  abbrev pub Distinct : Dict K V → Type 0
  Distinct [] = Unit
  Distinct ((k, v) ∷ d) = (contains k (keys d) ≡ false) × Distinct d

  contains-keys-insert :
      (j k : K) (v : V) (d : Dict K V)
      → e.beq k j ≡ false
      → contains j (keys (insert k v d)) ≡ contains j (keys d)
  unfolding insert
  contains-keys-insert j k v [] h = ground arith
  contains-keys-insert j k v ((i, w) ∷ d) h = ground (arith, contains-keys-insert j k v d h)

  pub Distinct-insert : (k : K) (v : V) (d : Dict K V) → Distinct d → Distinct (insert k v d)
  unfolding insert
  Distinct-insert k v [] h = (refl, tt)
  Distinct-insert k v ((j, w) ∷ d) h = elim (Bool-cases (e.beq j k)) [
    | inl same ↦ rw same (h.0, h.1)
    | inr other ↦
        let swapped : e.beq k j ≡ false = ground (arith, e.beq_iff j k, e.beq_iff k j) in
        rw other (contains-keys-insert j k v d swapped ∙ h.0, Distinct-insert k v d h.1)
  ]

  pub lookup_absent : (k : K) (d : Dict K V) → contains k (keys d) ≡ false → lookup k d ≡ none
  unfolding lookup
  lookup_absent k [] h = refl
  lookup_absent k ((j, w) ∷ d) h = ground (arith, lookup_absent k d)

  pub Distinct-of_keys : (d d' : Dict K V) → keys d' ≡ keys d → Distinct d → Distinct d'
  Distinct-of_keys [] [] h p = tt
  Distinct-of_keys [] (_ ∷ d') h p = cc
  Distinct-of_keys ((k, v) ∷ d) [] h p = cc
  Distinct-of_keys ((k, v) ∷ d) ((k', v') ∷ d') h p =
      let head : k' ≡ k = cc in
      let rest : keys d' ≡ keys d = cc in (rw (head, rest) p.0, Distinct-of_keys d d' rest p.1)
