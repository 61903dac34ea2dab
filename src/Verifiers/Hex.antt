-- ===== src/Verifiers/Hex.antt =====
-- `bytes.fromhex` and `bytes.hex`, over the code points of a text. Between two bytes `fromhex`
-- skips ASCII white space.
use Prim.Native.Nat.{◌/◌, ◌%◌}
use awesome_private_inferenc.Prelude.{
  ℕ, ◌+◌, ◌-◌, ◌*◌, ◌<◌, ◌≡◌, refl, ap, Bool, false, ◌&&◌, ◌||◌, Option, none, some, List, [], ◌∷◌,
  arith, leb, ltb, nat_beq, if◌then◌else◌, All, length,
}

abbrev pub Bytes : Type 0
Bytes = List ℕ

abbrev pub hex_value : ℕ → Option ℕ
hex_value c =
    if leb 48 c && leb c 57
    then some (c - 48)
    else if leb 97 c && leb c 102
    then some (c - 87)
    else if leb 65 c && leb c 70
    then some (c - 55)
    else none

abbrev pub is_ascii_space : ℕ → Bool
is_ascii_space c = (leb 9 c && leb c 13) || nat_beq c 32

abbrev pub cons_byte : Option ℕ → Option ℕ → Option Bytes → Option Bytes
cons_byte (some h) (some l) (some rest) = some ((h * 16 + l) ∷ rest)
cons_byte _ _ _ = none

-- `bytes.fromhex(text)`; `none` is the `ValueError`
unfoldable pub from_hex : List ℕ → Option Bytes
from_hex [] = some []
from_hex (c ∷ []) = if is_ascii_space c then some [] else none
from_hex (c ∷ d ∷ rest) =
    let later = from_hex (d ∷ rest) in
    let byte = cons_byte (hex_value c) (hex_value d) (from_hex rest) in
    if is_ascii_space c then later else byte

abbrev pub hex_char : ℕ → ℕ
hex_char n = if ltb n 10 then n + 48 else n + 87

-- `data.hex()`
unfoldable pub to_hex : Bytes → List ℕ
to_hex [] = []
to_hex (b ∷ bs) = hex_char (b / 16) ∷ hex_char (b % 16) ∷ to_hex bs

abbrev pub IsByte : ℕ → Type 0
IsByte b = b < 256

hex_value-hex_char : (n : ℕ) → n < 16 → hex_value (hex_char n) ≡ some n
hex_value-hex_char n h = ground arith

hex_char-space : (n : ℕ) → n < 16 → is_ascii_space (hex_char n) ≡ false
hex_char-space n h = ground arith

cons_byte-digits :
    (b : ℕ) (rest : Bytes) → cons_byte (some (b / 16)) (some (b % 16)) (some rest) ≡ some (b ∷ rest)
cons_byte-digits b rest = ap (λ (x : ℕ). some (x ∷ rest)) (omega arith)

-- Printing bytes in hex and reading them back gives the bytes.
pub from_hex-to_hex : (bs : Bytes) → All IsByte bs → from_hex (to_hex bs) ≡ some bs
unfolding from_hex to_hex
from_hex-to_hex [] h = refl
from_hex-to_hex (b ∷ bs) h =
    rw
      (
        hex_char-space (b / 16) (omega arith),
        hex_value-hex_char (b / 16) (omega arith),
        hex_value-hex_char (b % 16) (omega arith),
        from_hex-to_hex bs h.1,
      )
      (cons_byte-digits b bs)

-- Two hex prints that agree are prints of the same bytes.
pub to_hex_inj : (bs cs : Bytes) → All IsByte bs → All IsByte cs → to_hex bs ≡ to_hex cs → bs ≡ cs
to_hex_inj bs cs h k e = cc (from_hex-to_hex bs h, from_hex-to_hex cs k, ap from_hex e)

pub length-to_hex : (bs : Bytes) → length (to_hex bs) ≡ 2 * length bs
unfolding to_hex
length-to_hex [] = omega arith
length-to_hex (b ∷ bs) = omega (arith, length-to_hex bs)
