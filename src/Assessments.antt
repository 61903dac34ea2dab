-- ===== src/Assessments.antt =====
-- probes/assessments.py: `validate` and `rollup`. A route and its cells are records of
-- the fields that the code reads; a field that is missing or falsy is `none`. What is
-- a date is a parameter.
pub mod Reviewed
use awesome_private_inferenc.Prelude.{
  ℕ, ◌+◌, ◌*◌, ◌≤◌, String, ◌≡◌, ◌≢◌, ◌↔◌, refl, sym, ap, ◌∙◌, Bool, true, false, ◌&&◌, ◌||◌, not,
  Option, none, some, List, [], ◌∷◌, arith, ◌==◌, string_eq, option_eq, pair_eq, nat_eq,
  if◌then◌else◌, all, any, contains, All, length, is_some, str_eq, &&-eq-true, Bool-cases, inl, inr,
  eq_iff, leb, ltb, nat_beq,
}
use mathlib.Core.Path.{subst}
use awesome_private_inferenc.Prelude.Dict.{Dict, keys}
use awesome_private_inferenc.Prelude.Text.{codes, nonblank, is_prefix}
use awesome_private_inferenc.Result.{Result, ok, err, ◌>>=◌, ◌>>◌, require, >>=-eq-ok, ok-injective}

-- AXES
abbrev pub axes : List String
axes = "hardware" ∷ "session" ∷ "code" ∷ "operator" ∷ "downstream" ∷ "updates" ∷ []

-- STATES
abbrev pub states : List String
states = "established" ∷ "partial" ∷ "gap" ∷ "unknown" ∷ "na" ∷ "varies" ∷ []

-- LIMITATIONS
abbrev pub limitations : List String
limitations = "ours" ∷ "evidence" ∷ "reviewed_system" ∷ "architecture" ∷ "mixed" ∷ "none" ∷ []

pub record Cell : Type 0 where
  pub state : String
  pub reason : Option String
  pub label : Option String
  pub evidence : Option String
  pub missing : Option String
  pub limitation : Option String
  pub issue_urls : Option (List String)
  pub proof_records : List String

pub record Route : Type 0 where
  pub id : String
  pub axes : Dict String Cell
  pub reviewed_at : Option String
  pub source_revision : Option String
  pub sources : List String
  pub reviewer : Option String

pub data Refusal : Type 0 where
  unsupported_rubric duplicate_route missing_axis undated_route bad_date : Refusal
  invalid_state vague_cell no_limitation bad_issue_url unproven_cell : Refusal

-- `route.get(name)` in a test: a text that is not empty
abbrev pub is_given : Option String → Bool
is_given none = false
is_given (some text) = not (text == "")

abbrev pub is_concrete : Option String → Bool
is_concrete none = false
is_concrete (some text) = nonblank text

abbrev pub is_limitation : Option String → Bool
is_limitation none = false
is_limitation (some name) = contains name limitations

abbrev pub are_issues : Option (List String) → Bool
are_issues none = false
are_issues (some urls) = all (λ url. is_prefix (codes "https://github.com/") (codes url)) urls

abbrev pub has_records : List String → Bool
has_records [] = false
has_records (_ ∷ _) = true

-- `set(a) != set(b)`, negated
abbrev pub same_set : List String → List String → Bool
same_set a b = all (λ x. contains x b) a && all (λ x. contains x a) b

unfoldable pub check_cell : Cell → Result Refusal (Unit {0})
check_cell cell = do
  require (contains cell.state states && (not (cell.state == "varies") && is_given cell.reason))
      invalid_state
  require (is_concrete cell.label && (is_concrete cell.evidence && is_concrete cell.missing))
      vague_cell
  require (is_limitation cell.limitation) no_limitation
  require (are_issues cell.issue_urls) bad_issue_url
  require (not (cell.state == "established") || has_records cell.proof_records) unproven_cell

unfoldable pub check_cells : Dict String Cell → Result Refusal (Unit {0})
check_cells [] = ok tt
check_cells ((axis, cell) ∷ cells) = do check_cell cell; check_cells cells

module _ (is_date : String → Bool) where
  abbrev pub is_iso : Option String → Bool
  is_iso none = false
  is_iso (some text) = is_date text

  unfoldable pub check_route : Route → Result Refusal (Unit {0})
  check_route route = do
    require (same_set (keys route.axes) axes) missing_axis
    require
        (is_given route.reviewed_at
          && (is_given route.source_revision
              && (has_records route.sources && is_given route.reviewer)))
        undated_route
    require (is_iso route.reviewed_at) bad_date
    check_cells route.axes

  -- the loop of `validate`, with `seen`
  unfoldable pub check_routes : List String → List Route → Result Refusal (Unit {0})
  check_routes seen [] = ok tt
  check_routes seen (route ∷ routes) = do
    require (not (contains route.id seen)) duplicate_route
    check_route route
    check_routes (route.id ∷ seen) routes

  -- `validate`
  unfoldable pub validate : Option ℕ → List Route → Result Refusal (Unit {0})
  validate rubric_version routes = do
    require (rubric_version == some 2) unsupported_rubric
    check_routes [] routes

-- `(c['state'], c.get('label'), c.get('limitation'))`
abbrev pub Meaning : Type 0
Meaning = String × Option String × Option String

abbrev pub meaning : Cell → Meaning
meaning cell = (cell.state, cell.label, cell.limitation)

abbrev pub same_meaning : Meaning → Meaning → Bool
same_meaning a b = a.0 == b.0 && (a.1 == b.1 && a.2 == b.2)

-- `rollup`; of no cells it gives 'varies'
unfoldable pub rollup : List Cell → String
rollup [] = "varies"
rollup (cell ∷ cells) =
    if all (λ other. same_meaning (meaning cell) (meaning other)) cells
    then cell.state
    else "varies"
