-- ===== src/Verifiers/Preimage.antt =====
-- verifiers/common.py: `public_compose_preimage` and its pattern for assignments of secrets, over code
-- points. The digest is an argument; letters outside ASCII that the pattern's flag folds into ASCII
-- ones are not.
pub mod Pattern
pub mod Withheld
use awesome_private_inferenc.Prelude.{
  ℕ, zero, suc, ◌-◌, Bool, true, false, ◌&&◌, ◌||◌, not, Option, none, some, List, [], ◌∷◌, ◌++◌,
  any, leb, nat_beq, length, if◌then◌else◌, map,
}
use awesome_private_inferenc.Prelude.Text.{codes, lower, is_space, is_prefix}

abbrev pub Text : Type 0
Text = List ℕ

abbrev pub take_while : (ℕ → Bool) → Text → Text
take_while p [] = []
take_while p (c ∷ cs) = if p c then c ∷ take_while p cs else []

abbrev pub drop_while : (ℕ → Bool) → Text → Text
drop_while p [] = []
drop_while p (c ∷ cs) = if p c then drop_while p cs else c ∷ cs

-- `api[_-]?key|secret|password|token`; none of them is a prefix of another one
abbrev pub secret_names : List Text
secret_names =
    codes "apikey"
    ∷ codes "api_key"
    ∷ codes "api-key"
    ∷ codes "secret"
    ∷ codes "password"
    ∷ codes "token"
    ∷ []

-- the text after a name, whose letters may have either case
unfoldable pub after_name : Text → Text → Option Text
after_name [] text = some text
after_name (c ∷ cs) [] = none
after_name (c ∷ cs) (d ∷ text) =
    let rest = after_name cs text in if nat_beq c (lower d) then rest else none

unfoldable pub after_names : List Text → Text → Option Text
after_names [] text = none
after_names (name ∷ names) text = first (after_name name text) (after_names names text)
  where
    first : Option Text → Option Text → Option Text
    first none other = other
    first (some rest) other = some rest

-- `[=:]`, and `['\"]`
abbrev pub is_separator : ℕ → Bool
is_separator c = nat_beq c 61 || nat_beq c 58

abbrev pub is_quote : ℕ → Bool
is_quote c = nat_beq c 39 || nat_beq c 34

-- `['\"]?`
abbrev pub after_quote : Text → Text
after_quote [] = []
after_quote (c ∷ cs) = if is_quote c then cs else c ∷ cs

-- `[^\s'\"]`
abbrev pub is_value_char : ℕ → Bool
is_value_char c = not (is_space c) && not (is_quote c)

-- `([^\s'\"]{8,})`: the value, and the text after it
abbrev pub value_of : Text → Option (Text × Text)
value_of text =
    let value = take_while is_value_char text in
    if leb 8 (length value) then some (value, drop_while is_value_char text) else none

-- `[=:]\s*['\"]?([^\s'\"]{8,})`
abbrev pub separated : Text → Option (Text × Text)
separated [] = none
separated (c ∷ cs) =
    if is_separator c then value_of (after_quote (drop_while is_space cs)) else none

abbrev named : Option Text → Option (Text × Text)
named none = none
named (some rest) = separated (drop_while is_space rest)

-- the pattern at the start of a text
unfoldable pub assignment : Text → Option (Text × Text)
assignment text = named (after_names secret_names text)

-- `not match.group(1).startswith(("$", "{{"))`
abbrev pub is_literal : Text → Bool
is_literal value = not (is_prefix (codes "$") value || is_prefix (codes "{{") value)

-- `any(...)` over `finditer`: a match is followed by a search after its end, so that many code points
-- are passed over
unfoldable pub has_literal : ℕ → Text → Bool
has_literal skip [] = false
has_literal (suc skip) (c ∷ cs) = has_literal skip cs
has_literal zero (c ∷ cs) =
    found (assignment (c ∷ cs)) (has_literal zero cs) (λ skip. has_literal skip cs)
  where
    found : Option (Text × Text) → Bool → (ℕ → Bool) → Bool
    found none next later = next
    found (some (value, rest)) next later = is_literal value || later (length cs - length rest)

-- the fields of the result
pub record Preimage : Type 0 where
  pub app_compose_sha256 : Text
  pub app_compose : Option Text
  pub withheld : Bool

-- `public_compose_preimage`
unfoldable pub public_compose_preimage : (Text → Text) → Text → Preimage
public_compose_preimage sha256_hex compose = record {
  app_compose_sha256 = sha256_hex compose;
  app_compose = if has_literal 0 compose then none else some compose;
  withheld = has_literal 0 compose;
}
