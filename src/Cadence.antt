-- ===== src/Cadence.antt =====
-- probes/quality.py and probes/trajectory.py: the loop over a target's dated version identities and
-- the outcome counters.
pub mod Distinct
use awesome_private_inferenc.Prelude.{
  ℕ, ◌+◌, String, ◌≡◌, Bool, true, false, not, Option, none, some, List, [], ◌∷◌, string_eq, arith,
  if◌then◌else◌, contains, length, eq_iff, str_eq, ap,
}

-- `seen, novel, revisit, prev`
pub record Tally : Type 0 where
  pub seen : List String
  pub novel : ℕ
  pub revisit : ℕ
  pub prev : Option String

abbrev pub start : Tally
start = record { seen = []; novel = 0; revisit = 0; prev = none }

-- `seen.add(v)`
abbrev pub add_seen : String → List String → List String
add_seen v seen = if contains v seen then seen else v ∷ seen

-- `prev is not None and v != prev`
abbrev pub is_change : Option String → String → Bool
is_change none v = false
is_change (some p) v = not (str_eq v p)

-- One round of the loop.
unfoldable pub visit : Tally → String → Tally
visit t v =
    if is_change t.prev v
    then (if contains v t.seen
        then record t { revisit = t.revisit + 1; prev = some v }
        else record t { novel = t.novel + 1; seen = v ∷ t.seen; prev = some v })
    else record t { seen = add_seen v t.seen; prev = some v }

unfoldable pub tally_from : Tally → List String → Tally
tally_from t [] = t
tally_from t (v ∷ vs) = tally_from (visit t v) vs

-- The counts that `compute` and `main` report for one target's versions in date order.
unfoldable pub tally : List String → Tally
tally = tally_from start

-- The four outcome counters of `compute` (and of `main` in trajectory.py).
pub record Outcomes : Type 0 where
  pub pass : ℕ
  pub transport : ℕ
  pub no_error_invalid : ℕ
  pub verification_failure : ℕ

-- What the counters read of a row: `valid`, and `error or ""`; `is_transport` is the search for the
-- pattern TRANSPORT.
module _ (is_transport : String → Bool) where
  unfoldable pub count_row : Outcomes → Bool × String → Outcomes
  count_row c (valid, error) =
      if valid
      then record c { pass = c.pass + 1 }
      else if str_eq error ""
      then record c { no_error_invalid = c.no_error_invalid + 1 }
      else if is_transport error
      then record c { transport = c.transport + 1 }
      else record c { verification_failure = c.verification_failure + 1 }

  unfoldable pub count_rows : Outcomes → List (Bool × String) → Outcomes
  count_rows c [] = c
  count_rows c (row ∷ rows) = count_rows (count_row c row) rows

  abbrev pub total : Outcomes → ℕ
  total c = c.pass + c.transport + c.no_error_invalid + c.verification_failure

  count_row-total : (c : Outcomes) (row : Bool × String) → total (count_row c row) ≡ total c + 1
  unfolding count_row
  count_row-total c (valid, error) = ground arith

  -- No row is dropped or counted twice: the four counters grow together by the number of rows.
  pub count_rows-total :
      (c : Outcomes) (rows : List (Bool × String))
      → total (count_rows c rows) ≡ total c + length rows
  unfolding count_rows
  count_rows-total c [] = omega arith
  count_rows-total c (row ∷ rows) =
      omega (arith, count_rows-total (count_row c row) rows, count_row-total c row)
