-- ===== src/Verifiers/Tinfoil/Dcode/Order.antt =====
-- verifiers/tinfoil.py: the order of a certificate's names, and the padding of what they carry.
use mathlib.Core.List.{Permᴰ}
use awesome_private_inferenc.Prelude.{
  ℕ, ◌≡◌, refl, ap, sym, ◌∙◌, true, false, Option, none, some, List, [], ◌∷◌, arith, Bool-cases,
  inl, inr,
}
use awesome_private_inferenc.Prelude.Dict.{map_option}
use awesome_private_inferenc.Prelude.Text.{codes_le, codes_le-total, codes_le_trans}
use awesome_private_inferenc.Result.{err, ◌>>=◌, present}
use awesome_private_inferenc.Verifiers.Hex.{Bytes}
use awesome_private_inferenc.Verifiers.Tinfoil.World.{invalid_chunk, no_chunks, invalid_base32}
use awesome_private_inferenc.Verifiers.Tinfoil.Config.{Outcome}
use awesome_private_inferenc.Verifiers.Tinfoil.Dcode.{
  Chunk, Reading, passed, bad, chunk, read_name, chunk_le, place, sort, chunks_of, combined, padded,
  decode_dcode, with_reading, nonempty,
}

codes_le_antisym : (xs ys : List ℕ) → codes_le xs ys ≡ true → codes_le ys xs ≡ true → xs ≡ ys
unfolding codes_le
codes_le_antisym [] [] h k = refl
codes_le_antisym [] (y ∷ ys) h k = cc
codes_le_antisym (x ∷ xs) [] h k = cc
codes_le_antisym (x ∷ xs) (y ∷ ys) h k =
    let heads : x ≡ y = ground (arith, h, k) in
    let tails : xs ≡ ys = codes_le_antisym xs ys (ground (arith, h, k)) (ground (arith, h, k)) in
    λ i. heads i ∷ tails i

chunk_le-total : (a b : Chunk) → chunk_le a b ≡ false → chunk_le b a ≡ true
unfolding chunk_le
chunk_le-total (m, s) (n, t) h = ground (arith, codes_le-total s t)

chunk_le_trans : (a b c : Chunk) → chunk_le a b ≡ true → chunk_le b c ≡ true → chunk_le a c ≡ true
unfolding chunk_le
chunk_le_trans (l, r) (m, s) (n, t) h k = ground (arith, codes_le_trans r s t)

chunk_le_antisym : (a b : Chunk) → chunk_le a b ≡ true → chunk_le b a ≡ true → a ≡ b
unfolding chunk_le
chunk_le_antisym (m, s) (n, t) h k =
    let numbers : m ≡ n = ground (arith, h, k) in
    let texts : s ≡ t = codes_le_antisym s t (ground (arith, h, k)) (ground (arith, h, k)) in
    λ i. (numbers i, texts i)

place_apart :
    (a b : Chunk) (cs : List Chunk)
    → chunk_le a b ≡ true
    → chunk_le b a ≡ false
    → place a (place b cs) ≡ place b (place a cs)
unfolding place
place_apart a b [] ab ba = rw (ab, ba) refl
place_apart a b (c ∷ cs) ab ba = ground (
  arith,
  ab,
  ba,
  chunk_le_trans a b c,
  chunk_le_trans b a c,
  chunk_le-total a c,
  chunk_le-total b c,
  chunk_le_trans b c a,
  place_apart a b cs,
)

-- Placing two chunks gives the same list in either order.
place_comm : (a b : Chunk) (cs : List Chunk) → place a (place b cs) ≡ place b (place a cs)
place_comm a b cs = elim (Bool-cases (chunk_le a b)) [
  | inl ab ↦ elim (Bool-cases (chunk_le b a)) [
    | inl ba ↦ same a b (chunk_le_antisym a b ab ba) cs
    | inr ba ↦ place_apart a b cs ab ba
  ]
  | inr ab ↦ sym (place_apart b a cs (chunk_le-total a b ab) ab)
]
  where
    same : (a b : Chunk) → a ≡ b → (cs : List Chunk) → place a (place b cs) ≡ place b (place a cs)
    same a b e cs =
        ap (λ (x : Chunk). place x (place b cs)) e
        ∙ ap (λ (x : Chunk). place b (place x cs)) (sym e)

abbrev step : Reading → Option (List Chunk) → Option (List Chunk)
step passed rest = rest
step bad rest = none
step (chunk c) rest = map_option (place c) rest

sorted : Option (List Chunk) → Option (List Chunk)
sorted = map_option sort

sorted-with_reading :
    (r : Reading) (o : Option (List Chunk)) → sorted (with_reading r o) ≡ step r (sorted o)
unfolding sort sorted
sorted-with_reading passed o = refl
sorted-with_reading bad o = refl
sorted-with_reading (chunk c) none = refl
sorted-with_reading (chunk c) (some cs) = refl

step_comm : (r r' : Reading) (o : Option (List Chunk)) → step r (step r' o) ≡ step r' (step r o)
step_comm passed r' o = refl
step_comm bad passed o = refl
step_comm bad bad o = refl
step_comm bad (chunk c) o = refl
step_comm (chunk c) passed o = refl
step_comm (chunk c) bad o = refl
step_comm (chunk c) (chunk d) none = refl
step_comm (chunk c) (chunk d) (some cs) = ap some (place_comm c d cs)

abbrev read_all : List ℕ → List (List ℕ) → Option (List Chunk)
read_all prefix names = sorted (chunks_of prefix names)

read_all-step :
    (prefix name : List ℕ) (names : List (List ℕ))
    → read_all prefix (name ∷ names) ≡ step (read_name prefix name) (read_all prefix names)
unfolding chunks_of
read_all-step prefix name names =
    sorted-with_reading (read_name prefix name) (chunks_of prefix names)

read_all-Perm :
    (prefix : List ℕ) (names names' : List (List ℕ))
    → Permᴰ names names'
    → read_all prefix names ≡ read_all prefix names'
read_all-Perm prefix [] [] Permᴰ.nil = refl
read_all-Perm prefix (a ∷ l) (b ∷ m) (Permᴰ.cons e d) =
    read_all-step prefix a l
    ∙ ap (λ (x : List ℕ). step (read_name prefix x) (read_all prefix l)) e
    ∙ ap (step (read_name prefix b)) (read_all-Perm prefix l m d)
    ∙ sym (read_all-step prefix b m)
read_all-Perm prefix (a ∷ b ∷ l) (a' ∷ b' ∷ m) (Permᴰ.swap e f) =
    pair a b l
    ∙ step_comm (read_name prefix a) (read_name prefix b) (read_all prefix l)
    ∙ ap (λ (x : List ℕ). step (read_name prefix x) (step (read_name prefix a) (read_all prefix l)))
        f
    ∙ ap
        (λ (x : List ℕ). step (read_name prefix a') (step (read_name prefix x) (read_all prefix l)))
        e
    ∙ sym (pair a' b' l)
  where
    pair :
        (x y : List ℕ) (rest : List (List ℕ))
        → read_all prefix (x ∷ y ∷ rest)
          ≡ step (read_name prefix x) (step (read_name prefix y) (read_all prefix rest))
    pair x y rest =
        read_all-step prefix x (y ∷ rest)
        ∙ ap (step (read_name prefix x)) (read_all-step prefix y rest)
read_all-Perm prefix l n (Permᴰ.trans {l₂ = m} d d') =
    read_all-Perm prefix l m d ∙ read_all-Perm prefix m n d'

abbrev decoded : (List ℕ → Option Bytes) → Option (List Chunk) → Outcome Bytes
decoded b32decode none = err invalid_chunk
decoded b32decode (some []) = err no_chunks
decoded b32decode (some (c ∷ cs)) = present invalid_base32 (b32decode (padded (combined (c ∷ cs))))

decoded-place :
    (b32decode : List ℕ → Option Bytes) (c : Chunk) (cs : List Chunk)
    → decoded b32decode (some (place c cs))
      ≡ present invalid_base32 (b32decode (padded (combined (place c cs))))
unfolding place
decoded-place b32decode c [] = refl
decoded-place b32decode c (d ∷ ds) = elim (Bool-cases (chunk_le c d)) [
  | inl first ↦ rw first refl
  | inr later ↦ rw later refl
]

decode_dcode-decoded :
    (b32decode : List ℕ → Option Bytes) (sans : List (List ℕ)) (prefix : List ℕ)
    → decode_dcode b32decode sans prefix ≡ decoded b32decode (read_all prefix sans)
unfolding decode_dcode sorted sort
decode_dcode-decoded b32decode sans prefix = of (chunks_of prefix sans)
  where
    of :
        (o : Option (List Chunk))
        → (present invalid_chunk o >>= λ found. nonempty found >>= λ chunks.
            present invalid_base32 (b32decode (padded (combined (sort chunks)))))
          ≡ decoded b32decode (sorted o)
    of none = refl
    of (some []) = refl
    of (some (c ∷ cs)) = sym (decoded-place b32decode c (sort cs))

-- The names of a certificate may come in any order: where one list of names is a rearrangement of
-- the other, `_decode_dcode` decodes the same bytes for each prefix, or raises the same exception.
pub decode_dcode-perm :
    (b32decode : List ℕ → Option Bytes) (sans sans' : List (List ℕ)) (prefix : List ℕ)
    → Permᴰ sans sans'
    → decode_dcode b32decode sans prefix ≡ decode_dcode b32decode sans' prefix
decode_dcode-perm b32decode sans sans' prefix same =
    decode_dcode-decoded b32decode sans prefix
    ∙ ap (decoded b32decode) (read_all-Perm prefix sans sans' same)
    ∙ sym (decode_dcode-decoded b32decode sans' prefix)
