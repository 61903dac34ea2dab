-- ===== src/Verifiers/Tinfoil/Sev/Layout.antt =====
-- verifiers/tinfoil_sev.py: where the fields of a parsed report lie.
use Prim.Native.Nat.{◌/◌, ◌%◌, ◌^◌}
use awesome_private_inferenc.Prelude.{
  ℕ, ◌+◌, ◌*◌, ◌≤◌, ◌<◌, ◌≡◌, ◌↔◌, refl, ap, ◌∙◌, true, some, [], ◌∷◌, arith, nat_beq, nat_beq_iff,
  length, All, Bool-cases, inl, inr, zero, suc, some-eq,
}
use mathlib.Core.Path.{subst}
use awesome_private_inferenc.Verifiers.Hex.{Bytes, IsByte}
use awesome_private_inferenc.Verifiers.Bindings.{take, slice}
use awesome_private_inferenc.Verifiers.Tinfoil.Sev.{
  report_len, SnpReport, little_endian, debug_bit, fields_of, parse,
}

-- `data[i]`, and 0 past the end
abbrev pub byte_at : ℕ → Bytes → ℕ
byte_at i [] = 0
byte_at zero (b ∷ bs) = b
byte_at (suc i) (b ∷ bs) = byte_at i bs

length-take : (n : ℕ) (xs : Bytes) → n ≤ length xs → length (take n xs) ≡ n
length-take zero xs h = refl
length-take (suc n) [] h = absurd (omega (arith, h))
length-take (suc n) (x ∷ xs) h = omega (arith, length-take n xs (omega (arith, h)))

pub length-slice : (k n : ℕ) (xs : Bytes) → k + n ≤ length xs → length (slice k n xs) ≡ n
length-slice zero n xs h = length-take n xs (omega (arith, h))
length-slice (suc k) n [] h = absurd (omega (arith, h))
length-slice (suc k) n (x ∷ xs) h = length-slice k n xs (omega (arith, h))

take-IsByte : (n : ℕ) (xs : Bytes) → All IsByte xs → All IsByte (take n xs)
take-IsByte zero xs h = tt
take-IsByte (suc n) [] h = tt
take-IsByte (suc n) (x ∷ xs) h = (h.0, take-IsByte n xs h.1)

pub slice-IsByte : (k n : ℕ) (xs : Bytes) → All IsByte xs → All IsByte (slice k n xs)
slice-IsByte zero n xs h = take-IsByte n xs h
slice-IsByte (suc k) n [] h = take-IsByte n [] tt
slice-IsByte (suc k) n (x ∷ xs) h = slice-IsByte k n xs h.1

byte_at-take : (i n : ℕ) (xs : Bytes) → i < n → byte_at i (take n xs) ≡ byte_at i xs
byte_at-take i zero xs h = absurd (omega (arith, h))
byte_at-take i (suc n) [] h = refl
byte_at-take zero (suc n) (x ∷ xs) h = refl
byte_at-take (suc i) (suc n) (x ∷ xs) h = byte_at-take i n xs (omega (arith, h))

-- the bytes of a slice
byte_at-slice :
    (i j k n : ℕ) (xs : Bytes) → i < n → k + i ≡ j → byte_at i (slice k n xs) ≡ byte_at j xs
byte_at-slice i j zero n xs h e =
    byte_at-take i n xs h ∙ ap (λ (m : ℕ). byte_at m xs) (omega (arith, e))
byte_at-slice i j (suc k) n [] h e = byte_at-take i n [] h
byte_at-slice i zero (suc k) n (x ∷ xs) h e = absurd (omega (arith, e))
byte_at-slice i (suc j) (suc k) n (x ∷ xs) h e = byte_at-slice i j k n xs h (omega (arith, e))

-- the byte that bits 16 to 23 of a little-endian number come from
little_endian-third :
    (a b c : ℕ) (rest : Bytes)
    → a < 256
    → b < 256
    → little_endian (a ∷ b ∷ c ∷ rest) / 524288 % 2 ≡ c / 8 % 2
unfolding little_endian
little_endian-third a b c rest ha hb = omega arith

debug_bit-third :
    (bytes : Bytes)
    → 3 ≤ length bytes
    → All IsByte bytes
    → (debug_bit (little_endian bytes) ≡ true) ↔ (byte_at 2 bytes / 8 % 2 ≡ 1)
unfolding debug_bit
debug_bit-third [] l h = absurd (omega (arith, l))
debug_bit-third (a ∷ []) l h = absurd (omega (arith, l))
debug_bit-third (a ∷ b ∷ []) l h = absurd (omega (arith, l))
debug_bit-third (a ∷ b ∷ c ∷ rest) l h = (
  λ e. ground (arith, little_endian-third a b c rest h.0 h.1.0),
  λ e. ground (arith, little_endian-third a b c rest h.0 h.1.0),
)

-- 256 to the power n
abbrev numbers : ℕ → ℕ
numbers zero = 1
numbers (suc n) = 256 * numbers n

little_endian-lt :
    (bytes : Bytes) (n : ℕ) → length bytes ≡ n → All IsByte bytes → little_endian bytes < numbers n
unfolding little_endian
little_endian-lt [] zero l h = omega arith
little_endian-lt [] (suc n) l h = absurd (omega (arith, l))
little_endian-lt (b ∷ bs) zero l h = absurd (omega (arith, l))
little_endian-lt (b ∷ bs) (suc n) l h =
    omega (arith, h.0, little_endian-lt bs n (omega (arith, l)) h.1)

fields_of-IsLaidOut :
    (report : Bytes)
    → All IsByte report
    → length report ≡ 1184
    → (length (fields_of report).report_data ≡ 64)
      × (length (fields_of report).measurement ≡ 48)
      × ((fields_of report).policy < 2 ^ 64)
      × (((fields_of report).debug ≡ true) ↔ (byte_at 10 report / 8 % 2 ≡ 1))
unfolding fields_of
fields_of-IsLaidOut report bytes h =
    let fits : 1184 ≤ length report = omega (arith, h) in
    let policy : length (slice 8 8 report) ≡ 8 = length-slice 8 8 report (omega (arith, fits)) in
    let policy_bytes = slice-IsByte 8 8 report bytes in
    let third : byte_at 2 (slice 8 8 report) ≡ byte_at 10 report =
      byte_at-slice 2 10 8 8 report (omega arith) (omega arith) in
    (
      length-slice 80 64 report (omega (arith, fits)),
      length-slice 144 48 report (omega (arith, fits)),
      little_endian-lt (slice 8 8 report) 8 policy policy_bytes,
      subst (λ (x : ℕ). (debug_bit (little_endian (slice 8 8 report)) ≡ true) ↔ (x / 8 % 2 ≡ 1))
          third (debug_bit-third (slice 8 8 report) (omega (arith, policy)) policy_bytes),
    )

-- A report that `parse` takes has 1184 bytes. It takes 64 bytes of report data and 48 of measurement, its
-- policy is below 2^64, and the debug flag, bit 19 of the policy, is bit 3 of byte 10.
pub parse_layout :
    (report : Bytes) (r : SnpReport)
    → All IsByte report
    → parse report ≡ some r
    → (length report ≡ 1184)
      × (length r.report_data ≡ 64)
      × (length r.measurement ≡ 48)
      × (r.policy < 2 ^ 64)
      × ((r.debug ≡ true) ↔ (byte_at 10 report / 8 % 2 ≡ 1))
unfolding parse
parse_layout report r bytes h = elim (Bool-cases (nat_beq (length report) report_len)) [
  | inl fits ↦
      let size : length report ≡ 1184 = (nat_beq_iff _ _).0 fits in
      let laid : IsLaidOut r =
        subst IsLaidOut (some-eq (fields_of report) r (rw fits at h))
          (fields_of-IsLaidOut report bytes size) in
      (size, laid.0, laid.1, laid.2, laid.3)
  | inr other ↦ absurd (cc (rw other at h))
]
  where
    IsLaidOut : SnpReport → Type 0
    IsLaidOut x =
        (length x.report_data ≡ 64)
        × (length x.measurement ≡ 48)
        × (x.policy < 2 ^ 64)
        × ((x.debug ≡ true) ↔ (byte_at 10 report / 8 % 2 ≡ 1))
