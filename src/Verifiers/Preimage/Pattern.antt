-- ===== src/Verifiers/Preimage/Pattern.antt =====
-- verifiers/common.py: what the pattern for assignments of secrets matches.
use mathlib.Core.Path.{subst}
use awesome_private_inferenc.Prelude.{
  ℕ, ◌≤◌, ◌≡◌, refl, ap, sym, ◌∙◌, Bool, true, some, List, [], ◌∷◌, ◌++◌, length, leb, nat_beq,
  nat_beq_iff, Bool-cases, Option-cases, inl, inr, some-eq, All, arith, map, contains, nat_eq,
  list_eq, list_beq_iff,
}
use awesome_private_inferenc.Prelude.Text.{lower, is_space}
use awesome_private_inferenc.Verifiers.Preimage.{
  Text, take_while, drop_while, after_name, after_names, secret_names, separated, value_of,
  after_quote, is_separator, is_value_char, assignment, is_quote,
}

-- An assignment of a secret: a name, in any case, then perhaps white space, a separator, white space and
-- a quotation mark, then at least eight characters that are neither white space nor quotation marks; then the
-- rest of the text.
pub record IsAssignment (text value rest : Text) : Type 0 where
  pub name : Text
  pub gap : Text
  pub separator : ℕ
  pub second_gap : Text
  pub quote : Text
  pub split : text ≡ name ++ (gap ++ (separator ∷ (second_gap ++ (quote ++ (value ++ rest)))))
  pub is_name : contains (map lower name) secret_names ≡ true
  pub is_gap : All (λ c. is_space c ≡ true) gap
  pub separates : is_separator separator ≡ true
  pub is_second_gap : All (λ c. is_space c ≡ true) second_gap
  pub is_quotation : All (λ c. is_quote c ≡ true) quote
  pub has_length : 8 ≤ length value
  pub is_value : All (λ c. is_value_char c ≡ true) value

take_while-drop_while : (p : ℕ → Bool) (xs : Text) → xs ≡ take_while p xs ++ drop_while p xs
take_while-drop_while p [] = refl
take_while-drop_while p (c ∷ cs) = elim (Bool-cases (p c)) [
  | inl takes ↦ rw takes (ap (λ (l : Text). c ∷ l) (take_while-drop_while p cs))
  | inr leaves ↦ rw leaves refl
]

take_while-All : (p : ℕ → Bool) (xs : Text) → All (λ c. p c ≡ true) (take_while p xs)
take_while-All p [] = tt
take_while-All p (c ∷ cs) = elim (Bool-cases (p c)) [
  | inl takes ↦ rw takes (takes, take_while-All p cs)
  | inr leaves ↦ rw leaves tt
]

after_name-eq-some :
    (name text rest : Text)
    → after_name name text ≡ some rest
    → (found : Text) × (text ≡ found ++ rest) × (map lower found ≡ name)
unfolding after_name
after_name-eq-some [] text rest h = ([], some-eq text rest h, refl)
after_name-eq-some (c ∷ cs) [] rest h = cc
after_name-eq-some (c ∷ cs) (d ∷ text) rest h = elim (Bool-cases (nat_beq c (lower d))) [
  | inl same ↦
      let (found, split, lowered) = after_name-eq-some cs text rest (rw same at h) in
      (
        d ∷ found,
        ap (λ (l : Text). d ∷ l) split,
        λ i. sym ((nat_beq_iff c (lower d)).0 same) i ∷ lowered i,
      )
  | inr other ↦ absurd (cc (rw other at h))
]

listed_first : (m n : Text) (names : List Text) → m ≡ n → contains m (n ∷ names) ≡ true
listed_first m n names e = rw ((list_beq_iff nat_eq n m).1 (sym e)) refl

after_names-eq-some :
    (names : List Text) (text rest : Text)
    → after_names names text ≡ some rest
    → (found : Text) × (text ≡ found ++ rest) × (contains (map lower found) names ≡ true)
unfolding after_names
after_names-eq-some [] text rest h = cc
after_names-eq-some (name ∷ names) text rest h = elim (Option-cases (after_name name text)) [
  | inl nothing ↦
      let (found, split, listed) = after_names-eq-some names text rest (rw nothing at h) in
      (found, split, ground (arith, listed))
  | inr (r, hit) ↦
      let (found, split, lowered) = after_name-eq-some name text rest (hit ∙ (rw hit at h)) in
      (found, split, listed_first (map lower found) name names lowered)
]

-- What follows a name.
record IsSeparated (text value rest : Text) : Type 0 where
  separator : ℕ
  second_gap : Text
  quote : Text
  split : text ≡ separator ∷ (second_gap ++ (quote ++ (value ++ rest)))
  separates : is_separator separator ≡ true
  is_second_gap : All (λ c. is_space c ≡ true) second_gap
  is_quotation : All (λ c. is_quote c ≡ true) quote
  has_length : 8 ≤ length value
  is_value : All (λ c. is_value_char c ≡ true) value

quoted :
    (text : Text)
    → (quote : Text) × (text ≡ quote ++ after_quote text) × All (λ c. is_quote c ≡ true) quote
quoted [] = ([], refl, tt)
quoted (c ∷ cs) = elim (Bool-cases (is_quote c)) [
  | inl marks ↦ (c ∷ [], rw marks refl, (marks, tt))
  | inr other ↦ ([], rw other refl, tt)
]

value_of-eq-some :
    (text value rest : Text)
    → value_of text ≡ some (value, rest)
    → (text ≡ value ++ rest) × (8 ≤ length value) × All (λ c. is_value_char c ≡ true) value
value_of-eq-some text value rest h =
    elim (Bool-cases (leb 8 (length (take_while is_value_char text)))) [
      | inl enough ↦
          let pair =
            some-eq (take_while is_value_char text, drop_while is_value_char text) (value, rest)
              (rw enough at h) in
          let first : take_while is_value_char text ≡ value = ap (λ (p : Text × Text). p.0) pair in
          let second : drop_while is_value_char text ≡ rest = ap (λ (p : Text × Text). p.1) pair in
          (
            take_while-drop_while is_value_char text ∙ (λ i. first i ++ second i),
            subst (λ (v : Text). 8 ≤ length v) first (ground (arith, enough)),
            subst (λ (v : Text). All (λ c. is_value_char c ≡ true) v) first
                (take_while-All is_value_char text),
          )
      | inr few ↦ absurd (cc (rw few at h))
    ]

separated-IsSeparated :
    (text value rest : Text) → separated text ≡ some (value, rest) → IsSeparated text value rest
separated-IsSeparated [] value rest h = cc
separated-IsSeparated (c ∷ cs) value rest h = elim (Bool-cases (is_separator c)) [
  | inl separates ↦
      let gap = drop_while is_space cs in
      let (quote, opened, marks) = quoted gap in
      let (split, enough, chars) =
        value_of-eq-some (after_quote gap) value rest (rw separates at h) in
      record {
        separator = c;
        second_gap = take_while is_space cs;
        quote = quote;
        split =
            ap (λ (l : Text). c ∷ l)
              (take_while-drop_while is_space cs
                ∙ ap (λ (l : Text). take_while is_space cs ++ l)
                    (opened ∙ ap (λ (l : Text). quote ++ l) split));
        separates = separates;
        is_second_gap = take_while-All is_space cs;
        is_quotation = marks;
        has_length = enough;
        is_value = chars;
      }
  | inr other ↦ absurd (cc (rw other at h))
]

pub assignment-IsAssignment :
    (text value rest : Text) → assignment text ≡ some (value, rest) → IsAssignment text value rest
unfolding assignment
assignment-IsAssignment text value rest h = elim (Option-cases (after_names secret_names text)) [
  | inl nothing ↦ absurd (cc (rw nothing at h))
  | inr (tail, found) ↦
      let (name, split, listed) = after_names-eq-some secret_names text tail found in
      let s = separated-IsSeparated (drop_while is_space tail) value rest (rw found at h) in
      record {
        name = name;
        gap = take_while is_space tail;
        separator = s.separator;
        second_gap = s.second_gap;
        quote = s.quote;
        split =
            split
            ∙ ap (λ (l : Text). name ++ l)
                (take_while-drop_while is_space tail
                  ∙ ap (λ (l : Text). take_while is_space tail ++ l) s.split);
        is_name = listed;
        is_gap = take_while-All is_space tail;
        separates = s.separates;
        is_second_gap = s.is_second_gap;
        is_quotation = s.is_quotation;
        has_length = s.has_length;
        is_value = s.is_value;
      }
]
