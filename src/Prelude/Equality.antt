-- ===== src/Prelude/Equality.antt =====
-- Decidable equality of keys as a Boolean test, one operator for every type that has it.
use Prim.Native.Nat.{ℕ}
use Prim.Native.String.{String}
use mathlib.Core.Path.{◌≡◌, refl, ap}
use mathlib.Core.Logic.{◌↔◌}
use mathlib.Core.Bool.{Bool, true, false, ◌&&◌, not}
use mathlib.Core.Option.{Option, none, some}
use native.Mathlib.Omega.{arith}
use text.Mathlib.Text.{◌==◌ as str_eq}
use text.Mathlib.TextEquality.{eq_iff}
use mathlib.Core.List.{List, [], ◌∷◌}
use awesome_private_inferenc.Prelude.Tests.{nat_beq, nat_beq_iff, &&-eq-true}

pub record Eq {ℓ} (A : Type ℓ) : Type ℓ where
  pub beq : A → A → Bool
  pub beq_iff : (a b : A) → (beq a b ≡ true) ↔ (a ≡ b)

instance abbrev pub string_eq : Eq String
string_eq = record { beq = str_eq; beq_iff = eq_iff }

infix 50 ◌==◌ ◌!=◌
abbrev pub ◌==◌ {ℓ} : {A : Type ℓ} ⦃eq : Eq A⦄ → A → A → Bool
◌==◌ ⦃eq⦄ = eq.beq

abbrev pub ◌!=◌ {ℓ} : {A : Type ℓ} ⦃eq : Eq A⦄ → A → A → Bool
◌!=◌ ⦃eq⦄ a b = not (eq.beq a b)

instance abbrev pub nat_eq : Eq ℕ
nat_eq = record { beq = nat_beq; beq_iff = nat_beq_iff }

abbrev pub pair_beq {ℓ κ} : {A : Type ℓ} {B : Type κ} → Eq A → Eq B → A × B → A × B → Bool
pair_beq e f x y = e.beq x.0 y.0 && f.beq x.1 y.1

pub pair_beq_iff {ℓ κ} :
    {A : Type ℓ} {B : Type κ} (e : Eq A) (f : Eq B) (x y : A × B)
    → (pair_beq e f x y ≡ true) ↔ (x ≡ y)
pair_beq_iff e f (a, b) (c, d) = (
  λ h. ground (arith, e.beq_iff a c, f.beq_iff b d),
  λ h. ground (arith, h, e.beq_iff a c, f.beq_iff b d),
)

instance abbrev pub pair_eq {ℓ κ} : {A : Type ℓ} {B : Type κ} ⦃e : Eq A⦄ ⦃f : Eq B⦄ → Eq (A × B)
pair_eq ⦃e⦄ ⦃f⦄ = record { beq = pair_beq e f; beq_iff = pair_beq_iff e f }

abbrev pub option_beq {ℓ} : {A : Type ℓ} → Eq A → Option A → Option A → Bool
option_beq e none none = true
option_beq e (some a) (some b) = e.beq a b
option_beq e _ _ = false

pub option_beq_iff {ℓ} :
    {A : Type ℓ} (e : Eq A) (x y : Option A) → (option_beq e x y ≡ true) ↔ (x ≡ y)
option_beq_iff e none none = (λ _. refl, λ _. refl)
option_beq_iff e none (some b) = (λ h. cc, λ h. cc)
option_beq_iff e (some a) none = (λ h. cc, λ h. cc)
option_beq_iff e (some a) (some b) =
    (λ h. ap some ((e.beq_iff a b).0 h), λ h. ground (arith, e.beq_iff a b))

instance abbrev pub option_eq {ℓ} : {A : Type ℓ} ⦃e : Eq A⦄ → Eq (Option A)
option_eq ⦃e⦄ = record { beq = option_beq e; beq_iff = option_beq_iff e }

abbrev pub list_beq {ℓ} : {A : Type ℓ} → Eq A → List A → List A → Bool
list_beq e [] [] = true
list_beq e (x ∷ xs) (y ∷ ys) = e.beq x y && list_beq e xs ys
list_beq e _ _ = false

list_beq_sound {ℓ} : {A : Type ℓ} (e : Eq A) (xs ys : List A) → list_beq e xs ys ≡ true → xs ≡ ys
list_beq_sound e [] [] h = refl
list_beq_sound e (x ∷ xs) (y ∷ ys) h =
    let (head, rest) = &&-eq-true (e.beq x y) h in
    λ i. (e.beq_iff x y).0 head i ∷ list_beq_sound e xs ys rest i
list_beq_sound e _ _ h = cc

list_beq_refl {ℓ} : {A : Type ℓ} (e : Eq A) (xs : List A) → list_beq e xs xs ≡ true
list_beq_refl e [] = refl
list_beq_refl e (x ∷ xs) = rw ((e.beq_iff x x).1 refl) (list_beq_refl e xs)

pub list_beq_iff {ℓ} :
    {A : Type ℓ} (e : Eq A) (xs ys : List A) → (list_beq e xs ys ≡ true) ↔ (xs ≡ ys)
list_beq_iff e xs ys = (list_beq_sound e xs ys, λ h. rw h (list_beq_refl e ys))

instance abbrev pub list_eq {ℓ} : {A : Type ℓ} ⦃e : Eq A⦄ → Eq (List A)
list_eq ⦃e⦄ = record { beq = list_beq e; beq_iff = list_beq_iff e }

pub beq_refl {ℓ} : {A : Type ℓ} ⦃e : Eq A⦄ (a : A) → (a == a) ≡ true
beq_refl ⦃e⦄ a = (e.beq_iff a a).1 refl

-- A test that an enumeration's decision procedure gives.
abbrev pub decided {ℓ} : {A : Type ℓ} → Dec A → Bool
decided (yes _) = true
decided (no _) = false

pub decided_iff {ℓ} : {A : Type ℓ} (d : Dec A) → (decided d ≡ true) → A
decided_iff (yes a) h = a
decided_iff (no _) h = cc
