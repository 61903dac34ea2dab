-- ===== src/Verifiers/Tinfoil/Dcode.antt =====
-- verifiers/tinfoil.py: `_decode_dcode`, bytes that a certificate carries in chunks, in its names.
pub mod Order
use Prim.Native.Nat.{◌%◌}
use awesome_private_inferenc.Prelude.{
  ℕ, ◌+◌, ◌-◌, ◌*◌, Bool, true, false, ◌&&◌, ◌||◌, Option, none, some, List, [], ◌∷◌, ◌++◌, leb,
  ltb, nat_beq, length, if◌then◌else◌, map,
}
use awesome_private_inferenc.Prelude.Dict.{map_option}
use awesome_private_inferenc.Prelude.Text.{codes, is_infix, is_space, codes_le}
use awesome_private_inferenc.Result.{Result, ok, err, ◌>>=◌, present}
use awesome_private_inferenc.Verifiers.Hex.{Bytes}
use awesome_private_inferenc.Verifiers.Tinfoil.World.{
  Exception, no_chunks, invalid_chunk, invalid_base32,
}
use awesome_private_inferenc.Verifiers.Tinfoil.Config.{Outcome}

-- A chunk: its number, nine more than the source's, which may be negative, and its text.
abbrev pub Chunk : Type 0
Chunk = ℕ × List ℕ

abbrev is_digit : ℕ → Bool
is_digit c = leb 48 c && leb c 57

-- `int(first[:2])`, plus nine, on ASCII: two digits, or a digit next to a sign or white space
unfoldable pub number_of : ℕ → ℕ → Option ℕ
number_of a b =
    if is_digit a && is_digit b
    then some ((a - 48) * 10 + (b - 48) + 9)
    else if is_digit a && is_space b
    then some ((a - 48) + 9)
    else if is_digit b && (is_space a || nat_beq a 43)
    then some ((b - 48) + 9)
    else if is_digit b && nat_beq a 45
    then some (9 - (b - 48))
    else none

-- `s.split(".")[0]`
unfoldable pub first_label : List ℕ → List ℕ
first_label [] = []
first_label (c ∷ cs) = if nat_beq c 46 then [] else c ∷ first_label cs

-- What a name is to the loop: passed over, a `ValueError`, or a chunk.
pub data Reading : Type 0 where
  passed bad : Reading
  chunk : Chunk → Reading

abbrev numbered : Option ℕ → List ℕ → Reading
numbered none text = bad
numbered (some n) text = chunk (n, text)

abbrev reading_of_label : List ℕ → Reading
reading_of_label [] = passed
reading_of_label (a ∷ []) = passed
reading_of_label (a ∷ b ∷ text) = numbered (number_of a b) text

-- the body of the loop
unfoldable pub read_name : List ℕ → List ℕ → Reading
read_name prefix name =
    if is_infix (46 ∷ prefix ++ 46 ∷ []) name then reading_of_label (first_label name) else passed

-- the order of `chunks.sort()`
unfoldable pub chunk_le : Chunk → Chunk → Bool
chunk_le (m, s) (n, t) = ltb m n || (nat_beq m n && codes_le s t)

unfoldable pub place : Chunk → List Chunk → List Chunk
place c [] = c ∷ []
place c (d ∷ ds) = if chunk_le c d then c ∷ d ∷ ds else d ∷ place c ds

unfoldable pub sort : List Chunk → List Chunk
sort [] = []
sort (c ∷ cs) = place c (sort cs)

abbrev pub with_reading : Reading → Option (List Chunk) → Option (List Chunk)
with_reading passed rest = rest
with_reading bad rest = none
with_reading (chunk c) rest = map_option (λ cs. c ∷ cs) rest

-- the loop; `none` is the `ValueError` of `int`
unfoldable pub chunks_of : List ℕ → List (List ℕ) → Option (List Chunk)
chunks_of prefix [] = some []
chunks_of prefix (name ∷ names) = with_reading (read_name prefix name) (chunks_of prefix names)

abbrev upper : ℕ → ℕ
upper c = if leb 97 c && leb c 122 then c - 32 else c

-- `"".join(c for _, c in chunks)`
unfoldable pub combined : List Chunk → List ℕ
combined [] = []
combined ((n, text) ∷ cs) = text ++ combined cs

abbrev pub repeat : ℕ → ℕ → List ℕ
repeat ℕ.zero c = []
repeat (ℕ.suc n) c = c ∷ repeat n c

-- `combined.upper() + pad`
unfoldable pub padded : List ℕ → List ℕ
padded text = map upper text ++ repeat ((8 - length text % 8) % 8) 61

abbrev pub nonempty : List Chunk → Outcome (List Chunk)
nonempty [] = err no_chunks
nonempty (c ∷ cs) = ok (c ∷ cs)

-- `_decode_dcode`
unfoldable pub decode_dcode : (List ℕ → Option Bytes) → List (List ℕ) → List ℕ → Outcome Bytes
decode_dcode b32decode sans prefix = present invalid_chunk (chunks_of prefix sans) >>= λ found.
    nonempty found >>= λ chunks.
    present invalid_base32 (b32decode (padded (combined (sort chunks))))
