-- ===== src/Verifiers/Bindings.antt =====
-- verifiers/common.py: the bindings of a key and a nonce in a quote's report data, over code points.
-- The hash is a parameter.
use awesome_private_inferenc.Prelude.{
  ℕ, ◌≡◌, refl, ap, sym, ◌∙◌, Bool, true, false, ◌&&◌, Option, none, some, List, [], ◌∷◌, ◌++◌,
  arith, nat_beq, if◌then◌else◌, length, ◌==◌, nat_eq, list_eq, list_beq_iff, &&-eq-true, zero, suc,
  map, some-eq,
}
use awesome_private_inferenc.Prelude.Text.{lower}
use awesome_private_inferenc.Verifiers.Hex.{Bytes, from_hex, to_hex}

abbrev pub drop : ℕ → Bytes → Bytes
drop zero xs = xs
drop (suc n) [] = []
drop (suc n) (x ∷ xs) = drop n xs

abbrev pub take : ℕ → Bytes → Bytes
take zero xs = []
take (suc n) [] = []
take (suc n) (x ∷ xs) = x ∷ take n xs

-- `data[from:from + count]`
abbrev pub slice : ℕ → ℕ → Bytes → Bytes
slice from count bytes = take count (drop from bytes)

-- `text.removeprefix("0x")`
abbrev pub without_0x : List ℕ → List ℕ
without_0x [] = []
without_0x (c ∷ []) = c ∷ []
without_0x (c ∷ d ∷ rest) = if nat_beq c 48 && nat_beq d 120 then rest else c ∷ d ∷ rest

-- `data.ljust(width, b"\x00")`
unfoldable pub ljust : ℕ → Bytes → Bytes
ljust zero xs = xs
ljust (suc n) [] = 0 ∷ ljust n []
ljust (suc n) (x ∷ xs) = x ∷ ljust n xs

abbrev pub binds_bytes : Option Bytes → Option Bytes → List ℕ → Bool
binds_bytes (some rd) (some addr) nonce =
    take 32 rd == ljust 32 addr && to_hex (take 32 (drop 32 rd)) == nonce
binds_bytes _ _ nonce = false

-- `phala_report_data_binds_addr_nonce`; the exceptions of `fromhex` give False
unfoldable pub phala_report_data_binds_addr_nonce : List ℕ → List ℕ → List ℕ → Bool
phala_report_data_binds_addr_nonce report_data address nonce =
    binds_bytes (from_hex (without_0x report_data)) (from_hex (without_0x address)) nonce

-- `sha256_nonce_pubkey_binding`; `sha` is the hex digest
module _ (sha : List ℕ → List ℕ) where
  unfoldable pub sha256_nonce_pubkey_binding : List ℕ → List ℕ → List ℕ → Bool
  sha256_nonce_pubkey_binding report_data nonce pubkey =
      take 64 (map lower (without_0x report_data)) == map lower (sha (nonce ++ pubkey))

ljust_inj : (n : ℕ) (xs ys : Bytes) → length xs ≡ length ys → ljust n xs ≡ ljust n ys → xs ≡ ys
unfolding ljust
ljust_inj zero xs ys l e = e
ljust_inj (suc n) [] [] l e = refl
ljust_inj (suc n) [] (y ∷ ys) l e = absurd (omega arith)
ljust_inj (suc n) (x ∷ xs) [] l e = absurd (omega arith)
ljust_inj (suc n) (x ∷ xs) (y ∷ ys) l e =
    let head : x ≡ y = cc in
    let tail : ljust n xs ≡ ljust n ys = cc in λ i. head i ∷ ljust_inj n xs ys (omega arith) tail i

binds_bytes-eq :
    (rd addr : Option Bytes) (nonce : List ℕ)
    → binds_bytes rd addr nonce ≡ true
    → (r : Bytes) × (a : Bytes) × (rd ≡ some r)
      × (addr ≡ some a)
      × (take 32 r ≡ ljust 32 a)
      × (to_hex (take 32 (drop 32 r)) ≡ nonce)
binds_bytes-eq none addr nonce h = cc
binds_bytes-eq (some r) none nonce h = cc
binds_bytes-eq (some r) (some a) nonce h =
    let (left, right) = &&-eq-true (take 32 r == ljust 32 a) h in
    (r, a, refl, refl, (list_beq_iff nat_eq _ _).0 left, (list_beq_iff nat_eq _ _).0 right)

-- One report data binds one address and one nonce: if it binds two addresses of the same number of
-- bytes with two nonces, then the addresses are the same bytes and the nonces the same text.
pub report_data_binds-inj :
    (report_data address address' nonce nonce' : List ℕ) (a a' : Bytes)
    → from_hex (without_0x address) ≡ some a
    → from_hex (without_0x address') ≡ some a'
    → length a ≡ length a'
    → phala_report_data_binds_addr_nonce report_data address nonce ≡ true
    → phala_report_data_binds_addr_nonce report_data address' nonce' ≡ true
    → (a ≡ a') × (nonce ≡ nonce')
unfolding phala_report_data_binds_addr_nonce
report_data_binds-inj report_data address address' nonce nonce' a a' e e' l h h' =
    let rd = from_hex (without_0x report_data) in
    let (r, b, f, g, left, right) = binds_bytes-eq rd (from_hex (without_0x address)) nonce h in
    let (r', b', f', g', left', right') =
      binds_bytes-eq rd (from_hex (without_0x address')) nonce' h' in
    let same : r ≡ r' = some-eq r r' (sym f ∙ f') in
    let b-a : b ≡ a = some-eq b a (sym g ∙ e) in
    let b'-a' : b' ≡ a' = some-eq b' a' (sym g' ∙ e') in
    let padded : ljust 32 a ≡ ljust 32 a' =
      ap (ljust 32) (sym b-a) ∙ sym left ∙ ap (take 32) same ∙ left' ∙ ap (ljust 32) b'-a' in
    (
      ljust_inj 32 a a' l padded,
      sym right ∙ ap (λ (x : Bytes). to_hex (take 32 (drop 32 x))) same ∙ right',
    )
