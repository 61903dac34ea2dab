-- ===== src/Alerts.antt =====
-- probes/diffalert.py: the comparison of the current values with the acknowledged ones, and `--ack`.
use awesome_private_inferenc.Prelude.{
  String, ◌≡◌, refl, ap, ◌∙◌, Bool, false, Option, some, List, [], ◌∷◌, arith, ◌==◌, string_eq,
  option_eq, if◌then◌else◌, contains, eq_iff, str_eq, All,
}
use awesome_private_inferenc.Prelude.Dict.{
  Dict, lookup, insert, lookup-insert, lookup-insert_self, Distinct, keys,
}

-- `state.update(vals)`
unfoldable pub update : Dict String String → Dict String String → Dict String String
update state [] = state
update state ((key, value) ∷ vals) = update (insert key value state) vals

-- A finding: the key, the acknowledged value and the new one.
pub record Finding : Type 0 where
  pub key : String
  pub old : Option String
  pub new : String

-- the list of findings; `vals` stands for `sorted(vals.items())`
unfoldable pub findings : Dict String String → Dict String String → List Finding
findings state [] = []
findings state ((key, value) ∷ vals) =
    let rest = findings state vals in
    if lookup key state == some value
    then rest
    else record { key = key; old = lookup key state; new = value } ∷ rest

lookup-update :
    (key : String) (vals state : Dict String String)
    → contains key (keys vals) ≡ false
    → lookup key (update state vals) ≡ lookup key state
unfolding update
lookup-update key [] state h = refl
lookup-update key ((k, v) ∷ vals) state h =
    let apart : str_eq k key ≡ false = ground (arith, h) in
    lookup-update key vals (insert k v state) (ground (arith, h))
    ∙ lookup-insert k key v state
    ∙ ap (λ (b : Bool). if b then some v else lookup key state) apart

-- the state knows the values
abbrev Acked : Dict String String → Dict String String → Type 0
Acked state vals = All {A = String × String} (λ entry. lookup entry.0 state ≡ some entry.1) vals

update-Acked : (vals state : Dict String String) → Distinct vals → Acked (update state vals) vals
unfolding update
update-Acked [] state d = tt
update-Acked ((k, v) ∷ vals) state d = (
  lookup-update k vals (insert k v state) d.0 ∙ lookup-insert_self k v state,
  update-Acked vals (insert k v state) d.1,
)

findings-eq-nil : (state vals : Dict String String) → Acked state vals → findings state vals ≡ []
unfolding findings
findings-eq-nil state [] h = refl
findings-eq-nil state ((k, v) ∷ vals) h =
    rw (h.0, (eq_iff v v).1 refl) (findings-eq-nil state vals h.1)

-- Acknowledged values are not reported again, and nothing else is forgotten: of values with each key
-- once, a run on the state that acknowledged them has no findings, and a key that they do not hold
-- keeps its acknowledged value.
pub acked_quiet :
    (state vals : Dict String String)
    → Distinct vals
    → (findings (update state vals) vals ≡ [])
      × ((key : String)
          → contains key (keys vals) ≡ false
          → lookup key (update state vals) ≡ lookup key state)
acked_quiet state vals d = (
  findings-eq-nil (update state vals) vals (update-Acked vals state d),
  λ key. lookup-update key vals state,
)
