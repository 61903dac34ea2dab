-- ===== src/Verifiers/Tinfoil/Config/Committed.antt =====
-- verifiers/tinfoil.py: the configuration that the command line of a release commits to.
use awesome_private_inferenc.Prelude.{
  ℕ, String, ◌≡◌, refl, ap, sym, ◌∙◌, Bool, true, false, ◌&&◌, Option, none, some, List, [], ◌∷◌,
  ◌++◌, all, length, ◌==◌, nat_eq, list_eq, string_eq, list_beq_iff, Bool-cases, Option-cases, inl,
  inr, some-eq, &&-eq-true, nat_beq, zero, suc, nat_beq_iff,
}
use awesome_private_inferenc.Prelude.Dict.{Dict, lookup}
use awesome_private_inferenc.Prelude.Text.{codes, is_prefix}
use awesome_private_inferenc.Json.{Json, null, bool, num, str, arr, obj}
use awesome_private_inferenc.Result.{ok, require, present, >>=-eq-ok, ok-injective}
use awesome_private_inferenc.Verifiers.Ledger.{is_hex_digit}
use awesome_private_inferenc.Verifiers.Hex.{Bytes}
use awesome_private_inferenc.Verifiers.Bindings.{take, drop}
use awesome_private_inferenc.Verifiers.Tinfoil.World.{
  World, missing_config, missing_config_hash, config_hash_mismatch, invalid_base64,
}
use awesome_private_inferenc.Verifiers.Tinfoil.Config.{
  config_hash_label, labelled_hash, config_hash_in, as_text, bound_config,
}

take-drop : (n : ℕ) (xs : Bytes) → xs ≡ take n xs ++ drop n xs
take-drop zero xs = refl
take-drop (suc n) [] = refl
take-drop (suc n) (x ∷ xs) = ap (λ (l : Bytes). x ∷ l) (take-drop n xs)

is_prefix-drop : (p t : List ℕ) → is_prefix p t ≡ true → t ≡ p ++ drop (length p) t
unfolding is_prefix
is_prefix-drop [] t h = refl
is_prefix-drop (x ∷ xs) [] h = cc
is_prefix-drop (x ∷ xs) (y ∷ ys) h =
    let (same, rest) = &&-eq-true (nat_beq x y) h in
    λ i. (sym ((nat_beq_iff x y).0 same)) i ∷ is_prefix-drop xs ys rest i

-- Where a text holds the label and a hash.
abbrev pub Holds : List ℕ → List ℕ → Type 0
Holds text hash =
    (before : List ℕ) × (after : List ℕ) × (text ≡ before ++ (config_hash_label ++ (hash ++ after)))

labelled_hash-Holds : (text hash : List ℕ) → labelled_hash text ≡ some hash → Holds text hash
unfolding labelled_hash
labelled_hash-Holds text hash h = elim (Bool-cases (is_prefix config_hash_label text)) [
  | inl labelled ↦
      elim (Bool-cases (
        nat_beq (length (take 64 (drop 20 text))) 64
        && all is_hex_digit (take 64 (drop 20 text)))) [
          | inl hex ↦
              let found : take 64 (drop 20 text) ≡ hash =
                some-eq _ hash (rw (labelled, hex) at h) in
              (
                [],
                drop 64 (drop 20 text),
                is_prefix-drop config_hash_label text labelled
                    ∙ ap (λ (l : List ℕ). config_hash_label ++ l)
                        (take-drop 64 (drop 20 text)
                          ∙ ap (λ (l : List ℕ). l ++ drop 64 (drop 20 text)) found),
              )
          | inr other ↦ absurd (cc (rw (labelled, other) at h))
        ]
  | inr other ↦ absurd (cc (rw other at h))
]

config_hash_in-Holds : (text hash : List ℕ) → config_hash_in text ≡ some hash → Holds text hash
unfolding config_hash_in
config_hash_in-Holds [] hash h = cc
config_hash_in-Holds (c ∷ cs) hash h = elim (Option-cases (labelled_hash (c ∷ cs))) [
  | inl nothing ↦
      let (before, after, e) = config_hash_in-Holds cs hash (rw nothing at h) in
      (c ∷ before, after, ap (λ (l : List ℕ). c ∷ l) e)
  | inr (found, e) ↦ labelled_hash-Holds (c ∷ cs) hash (e ∙ (rw e at h))
]

-- The configuration is the predicate's, and its digest stands in the command line.
pub record IsBound (w : World) (predicate : Dict String Json) (config_bytes : Bytes) : Type 0 where
  pub config : String
  pub cmdline : String
  pub is_config : lookup "config" predicate ≡ some (str config)
  pub is_cmdline : lookup "cmdline" predicate ≡ some (str cmdline)
  pub decoded : w.b64decode (codes config) ≡ some config_bytes
  pub committed : Holds (codes cmdline) (w.sha256 config_bytes)

pub as_text-eq-ok :
    (v : Json) (text : List ℕ) → as_text v ≡ ok text → (s : String) × (v ≡ str s) × (codes s ≡ text)
as_text-eq-ok (str s) text h = (s, refl, ok-injective h)
as_text-eq-ok null text h = cc
as_text-eq-ok (bool b) text h = cc
as_text-eq-ok (num n) text h = cc
as_text-eq-ok (arr items) text h = cc
as_text-eq-ok (obj fields) text h = cc

pub present-eq-ok : {E A : Type 0} (e : E) (o : Option A) {a : A} → present e o ≡ ok a → o ≡ some a
present-eq-ok e none h = cc
present-eq-ok e (some a) h = ap some (ok-injective h)

pub require-eq-ok :
    {E : Type 0} (test : Bool) (e : E) {u : Unit {0}} → require test e ≡ ok u → test ≡ true
require-eq-ok true e h = refl
require-eq-ok false e h = cc

pub bound_config-IsBound :
    (w : World) (predicate : Dict String Json) (config_bytes : Bytes)
    → bound_config w predicate ≡ ok config_bytes
    → IsBound w predicate config_bytes
unfolding bound_config
bound_config-IsBound w predicate config_bytes h =
    let (config, a, h₁) = >>=-eq-ok (present missing_config (lookup "config" predicate)) _ h in
    let (cmdline, b, h₂) = >>=-eq-ok (present missing_config (lookup "cmdline" predicate)) _ h₁ in
    let (encoded, c, h₃) = >>=-eq-ok (as_text config) _ h₂ in
    let (bytes, d, h₄) = >>=-eq-ok (present invalid_base64 (w.b64decode encoded)) _ h₃ in
    let (line, e, h₅) = >>=-eq-ok (as_text cmdline) _ h₄ in
    let (hash, f, h₆) = >>=-eq-ok (present missing_config_hash (config_hash_in line)) _ h₅ in
    let (u, g, last) = >>=-eq-ok (require (hash == w.sha256 bytes) config_hash_mismatch) _ h₆ in
    let (config_text, config_is, same) = as_text-eq-ok config encoded c in
    let (cmdline_text, cmdline_is, same_line) = as_text-eq-ok cmdline line e in
    let result : bytes ≡ config_bytes = ok-injective last in
    let holds = config_hash_in-Holds line hash (present-eq-ok missing_config_hash _ f) in
    let matches : hash ≡ w.sha256 bytes =
      (list_beq_iff nat_eq _ _).0 (require-eq-ok _ config_hash_mismatch g) in
    record {
      config = config_text;
      cmdline = cmdline_text;
      is_config = present-eq-ok missing_config _ a ∙ ap some config_is;
      is_cmdline = present-eq-ok missing_config _ b ∙ ap some cmdline_is;
      decoded = ap w.b64decode same ∙ present-eq-ok invalid_base64 _ d ∙ ap some result;
      committed = (
        holds.0,
        holds.1,
        same_line
            ∙ holds.2
            ∙ ap (λ (x : List ℕ). holds.0 ++ (config_hash_label ++ (x ++ holds.1)))
                (matches ∙ ap w.sha256 result),
      );
    }
