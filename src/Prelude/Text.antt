-- ===== src/Prelude/Text.antt =====
-- What the program uses of Python's `str`: order by code points, membership, lower case.
use Prim.Native.Nat.{ℕ, ◌+◌}
use Prim.Native.Char.{code}
use Prim.Native.String.{String}
use mathlib.Core.Path.{◌≡◌, refl}
use mathlib.Core.Bool.{Bool, true, false, ◌&&◌, ◌||◌}
use mathlib.Core.List.{List, [], ◌∷◌}
use native.Mathlib.Omega.{arith}
use awesome_private_inferenc.Prelude.Tests.{ltb, leb, nat_beq, if◌then◌else◌}

-- The code points of a text.
abbrev pub codes : String → List ℕ
codes String.[] = []
codes (String.◌∷◌ c s) = code c ∷ codes s

-- `a <= b` on lists of code points, the order of `sorted`.
unfoldable pub codes_le : List ℕ → List ℕ → Bool
codes_le [] ys = true
codes_le (x ∷ xs) [] = false
codes_le (x ∷ xs) (y ∷ ys) = ltb x y || (nat_beq x y && codes_le xs ys)

unfoldable pub text_le : String → String → Bool
unfolding codes_le
text_le s t = codes_le (codes s) (codes t)

pub codes_le-total : (xs ys : List ℕ) → codes_le xs ys ≡ false → codes_le ys xs ≡ true
unfolding codes_le
codes_le-total [] ys h = cc
codes_le-total (x ∷ xs) [] h = refl
codes_le-total (x ∷ xs) (y ∷ ys) h = ground (arith, codes_le-total xs ys)

pub codes_le_trans :
    (xs ys zs : List ℕ) → codes_le xs ys ≡ true → codes_le ys zs ≡ true → codes_le xs zs ≡ true
unfolding codes_le
codes_le_trans [] ys zs h k = refl
codes_le_trans (x ∷ xs) [] zs h k = cc
codes_le_trans (x ∷ xs) (y ∷ ys) [] h k = cc
codes_le_trans (x ∷ xs) (y ∷ ys) (z ∷ zs) h k = ground (arith, codes_le_trans xs ys zs)

pub text_le_trans : (a b c : String) → text_le a b ≡ true → text_le b c ≡ true → text_le a c ≡ true
unfolding text_le
text_le_trans a b c = codes_le_trans (codes a) (codes b) (codes c)

pub text_le-total : (a b : String) → text_le a b ≡ false → text_le b a ≡ true
unfolding text_le
text_le-total a b = codes_le-total (codes a) (codes b)

-- `t.startswith(p)`
unfoldable pub is_prefix : List ℕ → List ℕ → Bool
is_prefix [] ys = true
is_prefix (x ∷ xs) [] = false
is_prefix (x ∷ xs) (y ∷ ys) = nat_beq x y && is_prefix xs ys

-- `p in t`
unfoldable pub is_infix : List ℕ → List ℕ → Bool
unfolding is_prefix
is_infix p [] = is_prefix p []
is_infix p (y ∷ ys) = is_prefix p (y ∷ ys) || is_infix p ys

-- `c.lower()` on ASCII.
abbrev pub lower : ℕ → ℕ
lower c = if leb 65 c && leb c 90 then c + 32 else c

-- `c.isspace()`, the characters that `strip` removes
abbrev pub is_space : ℕ → Bool
is_space c =
    (leb 9 c && leb c 13)
    || (leb 28 c && leb c 32)
    || nat_beq c 133
    || nat_beq c 160
    || nat_beq c 5760
    || (leb 8192 c && leb c 8202)
    || nat_beq c 8232
    || nat_beq c 8233
    || nat_beq c 8239
    || nat_beq c 8287
    || nat_beq c 12288

some_ink : List ℕ → Bool
some_ink [] = false
some_ink (c ∷ cs) = if is_space c then some_ink cs else true

-- `bool(s.strip())`
unfoldable pub nonblank : String → Bool
unfolding some_ink
nonblank s = some_ink (codes s)

has_space_in : List ℕ → Bool
has_space_in [] = false
has_space_in (c ∷ cs) = is_space c || has_space_in cs

-- `any(ch.isspace() for ch in s)`
unfoldable pub has_space : String → Bool
unfolding has_space_in
has_space s = has_space_in (codes s)

-- `sorted` of texts
unfoldable pub place_text : String → List String → List String
place_text s [] = s ∷ []
place_text s (t ∷ ts) = if text_le s t then s ∷ t ∷ ts else t ∷ place_text s ts

unfoldable pub sort_texts : List String → List String
sort_texts [] = []
sort_texts (s ∷ ss) = place_text s (sort_texts ss)
