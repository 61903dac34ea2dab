-- ===== src/Result.antt =====
-- Fallible code: the value, or the exception that was raised.
use awesome_private_inferenc.Prelude.{◌≡◌, refl, Bool, true, false, Option, none, some}

pub data Result {ℓ} (E : Type 0) (A : Type ℓ) : Type ℓ where
  ok : A → Result E A
  err : E → Result E A

infixl 5 ◌>>=◌ ◌>>◌
abbrev pub ◌>>=◌ {ℓ κ} :
    {E : Type 0} {A : Type ℓ} {B : Type κ} → Result E A → (A → Result E B) → Result E B
err error >>= next = err error
ok value >>= next = next value

abbrev pub ◌>>◌ {ℓ} : {E : Type 0} {A : Type ℓ} → Result E (Unit {0}) → Result E A → Result E A
first >> second = first >>= λ _. second

-- `if not test: raise e`
abbrev pub require : {E : Type 0} → Bool → E → Result E (Unit {0})
require false error = err error
require true error = ok tt

-- `d[k]`: a missing value raises.
abbrev pub present {ℓ} : {E : Type 0} {A : Type ℓ} → E → Option A → Result E A
present e none = err e
present e (some a) = ok a

pub >>=-eq-ok {ℓ κ} :
    {E : Type 0} {A : Type ℓ} {B : Type κ} (first : Result E A) (next : A → Result E B) {result : B}
    → (first >>= next) ≡ ok result
    → (value : A) × (first ≡ ok value) × (next value ≡ ok result)
>>=-eq-ok (err error) next h = cc
>>=-eq-ok (ok value) next h = (value, refl, h)

pub ok-injective {ℓ} :
    {E : Type 0} {A : Type ℓ} {a b : A} → ◌≡◌ {A = Result E A} (ok a) (ok b) → a ≡ b
ok-injective h = cc

pub require-eq-ok :
    {E : Type 0} (test : Bool) (e : E) {u : Unit {0}} → require test e ≡ ok u → test ≡ true
require-eq-ok true e h = refl
require-eq-ok false e h = cc
