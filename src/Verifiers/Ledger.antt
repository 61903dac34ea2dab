-- ===== src/Verifiers/Ledger.antt =====
-- verifiers/common.py: `load_audit_ledger` and `audit_match`. A row is its key, as the lower-case
-- code points of `str(row[key_field])`, with what else the row holds; the set of identities is a list.
use awesome_private_inferenc.Prelude.{
  ℕ, ◌≡◌, Bool, true, false, ◌&&◌, ◌||◌, Option, none, some, List, [], ◌∷◌, ◌++◌, arith, all, leb,
  length, if◌then◌else◌, map, All, nat_eq, list_eq, contains, All-append, Bool-cases, inl, inr,
  some-eq, ap,
}
use mathlib.Core.Path.{subst}
use awesome_private_inferenc.Prelude.Dict.{Dict, insert}
use awesome_private_inferenc.Prelude.Text.{is_prefix, lower}
use awesome_private_inferenc.Result.{Result, ok, err, ok-injective}

abbrev pub Key : Type 0
Key = List ℕ

pub data LedgerError : Type 0 where
  invalid_key : LedgerError

abbrev pub is_hex_digit : ℕ → Bool
is_hex_digit c = (leb 48 c && leb c 57) || (leb 97 c && leb c 102)

-- `len(k) < 8 or any(c not in "0123456789abcdef" for c in k)`, negated
abbrev pub is_ledger_key : Key → Bool
is_ledger_key k = leb 8 (length k) && all is_hex_digit k

-- `ids.add(k)`
abbrev pub add_key : Key → List Key → List Key
add_key k ids = if contains k ids then ids else ids ++ k ∷ []

module _ {Row : Type 0} where
  -- the loop over `data["audits"]`
  unfoldable pub load_rows :
      List (Key × Row) → List Key → Dict Key Row → Result LedgerError (List Key × Dict Key Row)
  load_rows [] ids meta = ok (ids, meta)
  load_rows ((key, row) ∷ rows) ids meta =
      let k = map lower key in
      let rest = load_rows rows (add_key k ids) (insert k row meta) in
      if is_ledger_key k then rest else err invalid_key

  -- `load_audit_ledger`
  unfoldable pub load_audit_ledger : List (Key × Row) → Result LedgerError (List Key × Dict Key Row)
  load_audit_ledger rows = load_rows rows [] []

-- the loop of `audit_match` over the set
unfoldable pub match_in : Key → List Key → Option Key
match_in value [] = none
match_in value (entry ∷ entries) =
    if is_prefix entry value then some entry else match_in value entries

-- `audit_match`
unfoldable pub audit_match : Key → List Key → Option Key
audit_match [] ids = none
audit_match (c ∷ cs) ids = match_in (map lower (c ∷ cs)) ids

abbrev pub IsLedgerKey : Key → Type 0
IsLedgerKey k = is_ledger_key k ≡ true

add_key-All :
    (k : Key) (ids : List Key)
    → IsLedgerKey k
    → All IsLedgerKey ids
    → All IsLedgerKey (add_key k ids)
add_key-All k ids h all_ids = elim (Bool-cases (contains k ids)) [
  | inl old ↦ rw old all_ids
  | inr new ↦ rw new (All-append IsLedgerKey ids (k ∷ []) all_ids (h, tt))
]

load_rows-All :
    {Row : Type 0} (rows : List (Key × Row)) (ids : List Key) (meta : Dict Key Row)
    (ids' : List Key) (meta' : Dict Key Row)
    → All IsLedgerKey ids
    → load_rows rows ids meta ≡ ok (ids', meta')
    → All IsLedgerKey ids'
unfolding load_rows
load_rows-All {Row} [] ids meta ids' meta' h e =
    subst (All IsLedgerKey) (ap {A = List Key × Dict Key Row} (λ p. p.0) (ok-injective e)) h
load_rows-All ((key, row) ∷ rows) ids meta ids' meta' h e =
    elim (Bool-cases (is_ledger_key (map lower key))) [
      | inl valid ↦
          load_rows-All rows (add_key (map lower key) ids) (insert (map lower key) row meta) ids'
            meta' (add_key-All (map lower key) ids valid h) (ground arith)
      | inr invalid ↦ absurd (ground arith)
    ]

match_in_sound :
    (value : Key) (ids : List Key) {entry : Key}
    → All IsLedgerKey ids
    → match_in value ids ≡ some entry
    → (is_prefix entry value ≡ true) × IsLedgerKey entry
unfolding match_in
match_in_sound value [] h e = cc
match_in_sound value (k ∷ ids) {entry} h e = elim (Bool-cases (is_prefix k value)) [
  | inl fits ↦
      subst (λ x. (is_prefix x value ≡ true) × IsLedgerKey x) (some-eq k entry (rw fits at e))
        (fits, h.0)
  | inr differs ↦ match_in_sound value ids h.1 (rw differs at e)
]

match_in_complete :
    (value : Key) (ids : List Key)
    → match_in value ids ≡ none
    → All (λ k. is_prefix k value ≡ false) ids
unfolding match_in
match_in_complete value [] e = tt
match_in_complete value (k ∷ ids) e = elim (Bool-cases (is_prefix k value)) [
  | inl fits ↦ absurd (ground arith)
  | inr differs ↦ (differs, match_in_complete value ids (rw differs at e))
]

-- With a ledger that loads, a match is never vacuous: what `audit_match` returns is a prefix of the
-- live value, in lower case, of at least eight hex digits; and if it returns nothing for a nonempty
-- value, no entry of the ledger is a prefix of that value.
pub audit_match-ledger :
    {Row : Type 0} (rows : List (Key × Row)) (ids : List Key) (meta : Dict Key Row) (c : ℕ)
    (cs : List ℕ)
    → load_audit_ledger rows ≡ ok (ids, meta)
    → ((entry : Key)
        → audit_match (c ∷ cs) ids ≡ some entry
        → (is_prefix entry (map lower (c ∷ cs)) ≡ true) × IsLedgerKey entry)
      × (audit_match (c ∷ cs) ids ≡ none → All (λ k. is_prefix k (map lower (c ∷ cs)) ≡ false) ids)
unfolding load_audit_ledger audit_match
audit_match-ledger rows ids meta c cs h = (
  λ entry. match_in_sound (map lower (c ∷ cs)) ids (load_rows-All rows [] [] ids meta tt h),
  match_in_complete (map lower (c ∷ cs)) ids,
)
