-- ===== src/Verifiers/Near/LightClient/Inner.antt =====
-- verifiers/near_ai_lightclient.py: what the check of the compose manager rests on.
use mathlib.Core.Path.{subst}
use awesome_private_inferenc.Prelude.{
  ℕ, String, ◌≡◌, refl, ap, sym, ◌∙◌, true, false, Option, none, some, List, [], ◌∷◌, ◌++◌,
  if◌then◌else◌, ◌==◌, nat_eq, list_eq, string_eq, list_beq_iff, map, All, ◌⊎◌, inl, inr,
  Bool-cases, &&-eq-true, eq_iff, some-eq,
}
use awesome_private_inferenc.Prelude.Dict.{Dict, lookup}
use awesome_private_inferenc.Prelude.Text.{lower}
use awesome_private_inferenc.Json.{Json, null, bool, num, str, arr, obj}
use awesome_private_inferenc.Result.{ok, require, present, >>=-eq-ok, ok-injective}
use awesome_private_inferenc.Verifiers.Bindings.{take, slice}
use awesome_private_inferenc.Verifiers.Tinfoil.Config.Committed.{present-eq-ok, require-eq-ok}
use awesome_private_inferenc.Verifiers.Near.LightClient.{
  Pin, model_pins, as_object, text_at, object_or_empty, list_or_empty, is_text, is_compose_up,
  latest_compose_up, manager_binds, check_inner, check_latest, crashed, no_pin, manager_unbound,
  no_compose_up, commit_mismatch, file_mismatch,
}

-- An action of a log that is the last one to bring up the pinned file.
pub record IsLatest (pin : Pin) (actions : List Json) (latest : Dict String Json) : Type 0 where
  pub before : List Json
  pub action : Json
  pub after : List Json
  pub split : actions ≡ before ++ (action ∷ after)
  pub is_action : as_object action ≡ ok latest
  pub brings_up : is_compose_up pin latest ≡ true
  pub none_after :
      All (λ v. (a : Dict String Json) × (as_object v ≡ ok a) × (is_compose_up pin a ≡ false)) after

abbrev NoComposeUp : Pin → List Json → Type 0
NoComposeUp pin =
    All (λ v. (a : Dict String Json) × (as_object v ≡ ok a) × (is_compose_up pin a ≡ false))

latest_compose_up-eq-ok :
    (pin : Pin) (actions : List Json) (found : Option (Dict String Json))
    (latest : Dict String Json)
    → latest_compose_up pin actions found ≡ ok (some latest)
    → IsLatest pin actions latest ⊎ ((found ≡ some latest) × NoComposeUp pin actions)
unfolding latest_compose_up
latest_compose_up-eq-ok pin [] found latest h = inr (ok-injective h, tt)
latest_compose_up-eq-ok pin (v ∷ vs) found latest h =
    let (a, is_a, rest) = >>=-eq-ok (as_object v) _ h in
    elim (latest_compose_up-eq-ok pin vs (if is_compose_up pin a then some a else found) latest
      rest) [
        | inl later ↦ inl (record {
          before = v ∷ later.before;
          action = later.action;
          after = later.after;
          split = ap (λ (l : List Json). v ∷ l) later.split;
          is_action = later.is_action;
          brings_up = later.brings_up;
          none_after = later.none_after;
        })
        | inr (same, no_more) ↦ elim (Bool-cases (is_compose_up pin a)) [
          | inl up ↦
              let this : a ≡ latest = some-eq a latest (rw up at same) in
              inl (record {
                before = [];
                action = v;
                after = vs;
                split = refl;
                is_action = is_a ∙ ap ok this;
                brings_up = ap (is_compose_up pin) (sym this) ∙ up;
                none_after = no_more;
              })
          | inr other ↦ inr (rw other at same, ((a, is_a, other), no_more))
        ]
      ]

is_text-eq : (s : String) (v : Json) → is_text s (some v) ≡ true → v ≡ str s
is_text-eq s (str t) h = ap str ((eq_iff t s).0 h)
is_text-eq s null h = cc
is_text-eq s (bool b) h = cc
is_text-eq s (num n) h = cc
is_text-eq s (arr items) h = cc
is_text-eq s (obj fields) h = cc

-- The last action for the pinned file has the pinned commit and digest.
pub record IsPinned (pin : Pin) (actions : List Json) (result : Dict String Json × Json × Json)
    : Type 0 where
  pub is_latest : IsLatest pin actions result.0
  pub commit_pinned : result.1 ≡ str pin.commit
  pub file_pinned : result.2 ≡ str pin.file_sha256

from_none :
    (pin : Pin) (actions : List Json) (latest : Dict String Json)
    → IsLatest pin actions latest
      ⊎ ((◌≡◌ {A = Option (Dict String Json)} none (some latest)) × NoComposeUp pin actions)
    → IsLatest pin actions latest
from_none pin actions latest (inl found) = found
from_none pin actions latest (inr (e, no_more)) = cc

check_latest-IsPinned :
    (pin : Pin) (actions : List Json) (result : Dict String Json × Json × Json)
    → check_latest pin actions ≡ ok result
    → IsPinned pin actions result
unfolding check_latest
check_latest-IsPinned pin actions result h =
    let (matching, g, h₁) = >>=-eq-ok (latest_compose_up pin actions none) _ h in
    let (latest, i, h₂) = >>=-eq-ok (present no_compose_up matching) _ h₁ in
    let (commit, j, h₃) = >>=-eq-ok (present crashed (lookup "commit" latest)) _ h₂ in
    let (v, k, h₄) = >>=-eq-ok (require (is_text pin.commit (some commit)) commit_mismatch) _ h₃ in
    let (file, l, h₅) = >>=-eq-ok (present crashed (lookup "file_sha256" latest)) _ h₄ in
    let (x, n, last) =
      >>=-eq-ok (require (is_text pin.file_sha256 (some file)) file_mismatch) _ h₅ in
    let found = g ∙ ap ok (present-eq-ok no_compose_up matching i) in
    let pinned : IsPinned pin actions (latest, commit, file) = record {
      is_latest =
          from_none pin actions latest (latest_compose_up-eq-ok pin actions none latest found);
      commit_pinned = is_text-eq pin.commit commit (require-eq-ok _ commit_mismatch k);
      file_pinned = is_text-eq pin.file_sha256 file (require-eq-ok _ file_mismatch n);
    } in
    subst (IsPinned pin actions) (ok-injective last) pinned

-- The inner closure: the compose manager's report data holds the hash of the actions and the nonce, and
-- the last action for the pinned file is the pinned one.
pub record IsClosed (m : Dict String Json) (model : String) (nonce : List ℕ)
    (result : Dict String Json × Json × Json) : Type 0 where
  pub pin : Pin
  pub manager : Dict String Json
  pub actions : List Json
  pub actions_hash : List ℕ
  pub report_data : List ℕ
  pub is_pinned : lookup model model_pins ≡ some pin
  pub is_manager : object_or_empty "compose_manager_attestation" m ≡ ok manager
  pub are_actions : list_or_empty "actions" manager ≡ ok actions
  pub is_actions_hash : text_at "actions_hash" manager ≡ ok actions_hash
  pub is_report_data : text_at "report_data" manager ≡ ok report_data
  pub binds_actions : map lower (take 64 report_data) ≡ map lower actions_hash
  pub binds_nonce : slice 64 64 report_data ≡ nonce
  pub pinned : IsPinned pin actions result

pub check_inner-IsClosed :
    (m : Dict String Json) (model : String) (nonce : List ℕ)
    (result : Dict String Json × Json × Json)
    → check_inner m model nonce ≡ ok result
    → IsClosed m model nonce result
unfolding check_inner
check_inner-IsClosed m model nonce result h =
    let (pin, a, h₁) = >>=-eq-ok (present no_pin (lookup model model_pins)) _ h in
    let (manager, b, h₂) = >>=-eq-ok (object_or_empty "compose_manager_attestation" m) _ h₁ in
    let (actions, c, h₃) = >>=-eq-ok (list_or_empty "actions" manager) _ h₂ in
    let (actions_hash, d, h₄) = >>=-eq-ok (text_at "actions_hash" manager) _ h₃ in
    let (report_data, e, h₅) = >>=-eq-ok (text_at "report_data" manager) _ h₄ in
    let (u, f, last) =
      >>=-eq-ok (require (manager_binds report_data actions_hash nonce) manager_unbound) _ h₅ in
    let (first, second) =
      &&-eq-true (map lower (take 64 report_data) == map lower actions_hash)
        (require-eq-ok _ manager_unbound f) in
    record {
      pin = pin;
      manager = manager;
      actions = actions;
      actions_hash = actions_hash;
      report_data = report_data;
      is_pinned = present-eq-ok no_pin _ a;
      is_manager = b;
      are_actions = c;
      is_actions_hash = d;
      is_report_data = e;
      binds_actions = (list_beq_iff nat_eq _ _).0 first;
      binds_nonce = (list_beq_iff nat_eq _ _).0 second;
      pinned = check_latest-IsPinned pin actions result last;
    }
