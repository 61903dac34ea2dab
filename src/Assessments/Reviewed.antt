-- ===== src/Assessments/Reviewed.antt =====
-- probes/assessments.py: what a data file that `validate` accepts holds, and what `rollup` says.
use awesome_private_inferenc.Prelude.{
  ℕ, String, ◌≡◌, ◌≢◌, refl, sym, ◌∙◌, Bool, true, false, ◌&&◌, not, Option, none, some, List, [],
  ◌∷◌, arith, ◌==◌, string_eq, option_eq, nat_eq, all, contains, All, &&-eq-true, Bool-cases, inl,
  inr, eq_iff, option_beq_iff,
}
use awesome_private_inferenc.Prelude.Dict.{Dict, keys}
use awesome_private_inferenc.Result.{ok, require, >>=-eq-ok, require-eq-ok}
use awesome_private_inferenc.Assessments.{
  Cell, Route, duplicate_route, unsupported_rubric, axes, states, is_given, is_concrete,
  has_records, same_set, is_iso, check_cell, check_cells, check_route, check_routes, validate,
  meaning, same_meaning, rollup,
}

-- A cell that the page can show.
pub record IsArgued (cell : Cell) : Type 0 where
  pub known : contains cell.state states ≡ true
  pub definite : cell.state ≢ "varies"
  pub explained : is_given cell.reason ≡ true
  pub concrete :
      (is_concrete cell.label && (is_concrete cell.evidence && is_concrete cell.missing)) ≡ true
  pub proven : cell.state ≡ "established" → has_records cell.proof_records ≡ true

pub record IsReviewed (is_date : String → Bool) (route : Route) : Type 0 where
  pub complete : same_set (keys route.axes) axes ≡ true
  pub day : String
  pub dated : route.reviewed_at ≡ some day
  pub is_day : is_date day ≡ true
  pub reviewed : (is_given route.reviewed_at && is_given route.reviewer) ≡ true
  pub sourced : (is_given route.source_revision && has_records route.sources) ≡ true
  pub cells : All {A = String × Cell} (λ entry. IsArgued entry.1) route.axes

abbrev pub IsDistinct : List Route → Type 0
IsDistinct [] = Unit
IsDistinct (route ∷ routes) = All (λ other. other.id ≢ route.id) routes × IsDistinct routes

All-map :
    {A : Type 0} {P Q : A → Type 0} → ((a : A) → P a → Q a) → (xs : List A) → All P xs → All Q xs
All-map f [] h = tt
All-map f (x ∷ xs) h = (f x h.0, All-map f xs h.1)

unseen_split :
    (a b : String) (seen : List String)
    → contains a (b ∷ seen) ≡ false
    → (a ≢ b) × (contains a seen ≡ false)
unseen_split a b seen h = (λ e. ground (arith, eq_iff a b, eq_iff b a), ground arith)

check_cell-IsArgued : (cell : Cell) → check_cell cell ≡ ok tt → IsArgued cell
unfolding check_cell
check_cell-IsArgued cell h = record {
  known = ground (arith);
  definite = λ e. ground (arith, eq_iff cell.state "varies");
  explained = ground (arith);
  concrete = ground (arith);
  proven = λ e. ground (arith, eq_iff cell.state "established");
}

check_cells-All :
    (cells : Dict String Cell)
    → check_cells cells ≡ ok tt
    → All {A = String × Cell} (λ entry. IsArgued entry.1) cells
unfolding check_cells
check_cells-All [] h = tt
check_cells-All ((axis, cell) ∷ cells) h =
    let (u, first, rest) = >>=-eq-ok (check_cell cell) _ h in
    (check_cell-IsArgued cell first, check_cells-All cells rest)

module _ (is_date : String → Bool) where
  is_iso-date :
      (text : Option String)
      → is_iso is_date text ≡ true
      → (day : String) × (text ≡ some day) × (is_date day ≡ true)
  is_iso-date none h = cc
  is_iso-date (some day) h = (day, refl, h)

  check_route-IsReviewed :
      (route : Route) → check_route is_date route ≡ ok tt → IsReviewed is_date route
  unfolding check_route
  check_route-IsReviewed route h =
      let (day, dated, is_day) = is_iso-date route.reviewed_at (ground arith) in
      record {
        day = day;
        dated = dated;
        is_day = is_day;
        complete = ground arith;
        reviewed = ground arith;
        sourced = ground arith;
        cells = check_cells-All route.axes (ground arith);
      }

  check_routes-All :
      (seen : List String) (routes : List Route)
      → check_routes is_date seen routes ≡ ok tt
      → All (IsReviewed is_date) routes
        × All (λ route. contains route.id seen ≡ false) routes
        × IsDistinct routes
  unfolding check_routes
  check_routes-All seen [] h = (tt, tt, tt)
  check_routes-All seen (route ∷ routes) h =
      let (u, fresh, h') = >>=-eq-ok (require (not (contains route.id seen)) duplicate_route) _ h in
      let (v, good, rest) = >>=-eq-ok (check_route is_date route) _ h' in
      let (reviewed, unseen, distinct) = check_routes-All (route.id ∷ seen) routes rest in
      (
        (check_route-IsReviewed route good, reviewed),
        (
          ground (arith, require-eq-ok _ _ fresh),
          All-map (λ o e. (unseen_split o.id route.id seen e).1) routes unseen,
        ),
        (All-map (λ o e. (unseen_split o.id route.id seen e).0) routes unseen, distinct),
      )

  -- A data file that `validate` accepts has rubric version 2 and no route twice, and each of its
  -- routes has exactly the six axes, a review date that parses as one, a reviewer, a source revision and sources; each cell has
  -- a known state other than "varies" with a reason and concrete texts, and is established only with
  -- proof records.
  pub validate-IsReviewed :
      (rubric_version : Option ℕ) (routes : List Route)
      → validate is_date rubric_version routes ≡ ok tt
      → (rubric_version ≡ some 2) × IsDistinct routes × All (IsReviewed is_date) routes
  unfolding validate
  validate-IsReviewed version routes h =
      let (u, right, rest) = >>=-eq-ok (require (version == some 2) unsupported_rubric) _ h in
      let (reviewed, unseen, distinct) = check_routes-All [] routes rest in
      ((option_beq_iff nat_eq version (some 2)).0 (require-eq-ok _ _ right), distinct, reviewed)

same_states :
    (cell : Cell) (cells : List Cell) {state : String}
    → cell.state ≡ state
    → all (λ other. same_meaning (meaning cell) (meaning other)) cells ≡ true
    → All (λ other. other.state ≡ state) cells
same_states cell [] e h = tt
same_states cell (other ∷ cells) e h =
    let (first, rest) = &&-eq-true (same_meaning (meaning cell) (meaning other)) h in
    (sym (ground (arith, eq_iff cell.state other.state)) ∙ e, same_states cell cells e rest)

-- `rollup` never takes the best of several routes: a state other than "varies" is the state of
-- every cell.
pub rollup-All :
    (cells : List Cell) (state : String)
    → rollup cells ≡ state
    → state ≢ "varies"
    → All (λ cell. cell.state ≡ state) cells
unfolding rollup
rollup-All [] state h apart = tt
rollup-All (cell ∷ cells) state h apart =
    elim (Bool-cases (all (λ other. same_meaning (meaning cell) (meaning other)) cells)) [
      | inl same ↦ let e : cell.state ≡ state = rw same at h in (e, same_states cell cells e same)
      | inr differ ↦ absurd (apart (sym (rw differ at h)))
    ]
