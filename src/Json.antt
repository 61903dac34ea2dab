-- ===== src/Json.antt =====
-- JSON values, as the program's files hold them: an object is the list of its fields. Numbers are
-- natural; equality is structural, so two objects are compared with their fields in one order, the
-- sorted one in which `json.dump(..., sort_keys=True)` writes them.
use awesome_private_inferenc.Prelude.{
  ℕ, String, ◌≡◌, refl, ap, ◌↔◌, Bool, true, false, ◌&&◌, not, arith, Eq, nat_eq, string_eq,
  nat_beq, str_eq, eq_iff, &&-eq-true,
}

mutual
  pub data Json : Type 0 where
    null : Json
    bool : Bool → Json
    num : ℕ → Json
    str : String → Json
    arr : Items → Json
    obj : Fields → Json

  pub data Items : Type 0 where
    nil : Items
    cons : Json → Items → Items

  pub data Fields : Type 0 where
    end : Fields
    field : String → Json → Fields → Fields

abbrev pub bool_beq : Bool → Bool → Bool
bool_beq true b = b
bool_beq false b = not b

unfoldable mutual
  pub json_beq : Json → Json → Bool
  json_beq null null = true
  json_beq (bool a) (bool b) = bool_beq a b
  json_beq (num a) (num b) = nat_beq a b
  json_beq (str a) (str b) = str_eq a b
  json_beq (arr a) (arr b) = items_beq a b
  json_beq (obj a) (obj b) = fields_beq a b
  json_beq _ _ = false

  pub items_beq : Items → Items → Bool
  items_beq nil nil = true
  items_beq (cons x xs) (cons y ys) = json_beq x y && items_beq xs ys
  items_beq _ _ = false

  pub fields_beq : Fields → Fields → Bool
  fields_beq end end = true
  fields_beq (field k v r) (field l w s) = str_eq k l && (json_beq v w && fields_beq r s)
  fields_beq _ _ = false

mutual
  unfolding json_beq

  json_beq_sound : (a b : Json) → json_beq a b ≡ true → a ≡ b
  json_beq_sound null null h = refl
  json_beq_sound (bool a) (bool b) h = ground arith
  json_beq_sound (num a) (num b) h = ground arith
  json_beq_sound (str a) (str b) h = ap str ((eq_iff a b).0 h)
  json_beq_sound (arr a) (arr b) h = ap arr (items_beq_sound a b h)
  json_beq_sound (obj a) (obj b) h = ap obj (fields_beq_sound a b h)
  json_beq_sound _ _ h = cc

  items_beq_sound : (a b : Items) → items_beq a b ≡ true → a ≡ b
  items_beq_sound nil nil h = refl
  items_beq_sound (cons x xs) (cons y ys) h =
      ground (arith, json_beq_sound x y, items_beq_sound xs ys)
  items_beq_sound _ _ h = cc

  fields_beq_sound : (a b : Fields) → fields_beq a b ≡ true → a ≡ b
  fields_beq_sound end end h = refl
  fields_beq_sound (field k v r) (field l w s) h =
      let (key, rest) = &&-eq-true (str_eq k l) h in
      let (value, others) = &&-eq-true (json_beq v w) rest in
      λ i. field ((eq_iff k l).0 key i) (json_beq_sound v w value i) (fields_beq_sound r s others i)
  fields_beq_sound _ _ h = cc

mutual
  unfolding json_beq

  json_beq_refl : (a : Json) → json_beq a a ≡ true
  json_beq_refl null = refl
  json_beq_refl (bool a) = ground arith
  json_beq_refl (num a) = ground arith
  json_beq_refl (str a) = (eq_iff a a).1 refl
  json_beq_refl (arr a) = items_beq_refl a
  json_beq_refl (obj a) = fields_beq_refl a

  items_beq_refl : (a : Items) → items_beq a a ≡ true
  items_beq_refl nil = refl
  items_beq_refl (cons x xs) = ground (arith, json_beq_refl x, items_beq_refl xs)

  fields_beq_refl : (a : Fields) → fields_beq a a ≡ true
  fields_beq_refl end = refl
  fields_beq_refl (field k v r) = ground (arith, eq_iff k k, json_beq_refl v, fields_beq_refl r)

pub json_beq_iff : (a b : Json) → (json_beq a b ≡ true) ↔ (a ≡ b)
json_beq_iff a b = (json_beq_sound a b, λ h. rw h (json_beq_refl b))

instance abbrev pub json_eq : Eq Json
json_eq = record { beq = json_beq; beq_iff = json_beq_iff }

-- `bool(v)`
abbrev pub truthy : Json → Bool
truthy null = false
truthy (bool b) = b
truthy (num n) = not (nat_beq n 0)
truthy (str s) = not (str_eq s "")
truthy (arr nil) = false
truthy (arr (cons _ _)) = true
truthy (obj end) = false
truthy (obj (field _ _ _)) = true

-- `v is True`, `v is False`
abbrev pub is_true : Json → Bool
is_true (bool b) = b
is_true _ = false

abbrev pub is_false : Json → Bool
is_false (bool b) = not b
is_false _ = false
