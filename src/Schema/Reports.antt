-- ===== src/Schema/Reports.antt =====
-- Reading an adapter's report: fields of JSON objects, as `dict.get` and `or` read them.
use awesome_private_inferenc.Prelude.{ℕ, String, Bool, Option, some, List, [], ◌∷◌, string_eq, map}
use awesome_private_inferenc.Prelude.Dict.{Dict, lookup}
use awesome_private_inferenc.Prelude.Text.{codes, lower, is_infix}
use awesome_private_inferenc.Json.{Json, Items, nil, cons, Fields, end, field, str, arr, obj}

abbrev pub Report : Type 0
Report = Dict String Json

abbrev pub entries : Fields → Dict String Json
entries end = []
entries (field k v rest) = (k, v) ∷ entries rest

abbrev pub members : Items → List Json
members nil = []
members (cons v rest) = v ∷ members rest

abbrev pub object_of : Option Json → Dict String Json
object_of (some (obj fields)) = entries fields
object_of _ = []

abbrev pub list_of : Option Json → List Json
list_of (some (arr items)) = members items
list_of _ = []

abbrev pub text_of : Option Json → String
text_of (some (str s)) = s
text_of _ = ""

-- `report.get("details") or {}`
abbrev pub details_of : Report → Dict String Json
details_of report = object_of (lookup "details" report)

-- `report.get("scorecard") or {}`
abbrev pub scorecard_of : Report → Dict String Json
scorecard_of report = object_of (lookup "scorecard" report)

-- `needle in low`
abbrev pub has_text : String → List ℕ → Bool
has_text needle low = is_infix (codes needle) low

-- `error.lower()`
abbrev pub lowered : String → List ℕ
lowered s = map lower (codes s)
