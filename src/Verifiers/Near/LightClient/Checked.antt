-- ===== src/Verifiers/Near/LightClient/Checked.antt =====
-- verifiers/near_ai_lightclient.py: what a result rests on.
use mathlib.Core.Path.{subst}
use awesome_private_inferenc.Prelude.{
  ℕ, String, ◌≡◌, ap, sym, true, false, ◌&&◌, Option, some, List, nat_eq, list_eq, string_eq,
  list_beq_iff, map, contains, inl, inr, Bool-cases, &&-eq-true,
}
use awesome_private_inferenc.Prelude.Dict.{Dict, lookup}
use awesome_private_inferenc.Prelude.Text.{lower}
use awesome_private_inferenc.Json.{Json}
use awesome_private_inferenc.Result.{ok, require, present, >>=-eq-ok, ok-injective}
use awesome_private_inferenc.Verifiers.Venice.{passes}
use awesome_private_inferenc.Verifiers.Tinfoil.Config.Committed.{present-eq-ok, require-eq-ok}
use awesome_private_inferenc.Verifiers.Near.Chain.{
  Text, address_of, fetch_onchain_set_static, fetch_onchain_set_live,
}
use awesome_private_inferenc.Verifiers.Near.LightClient.{
  Onchain, static, skip, live, World, LightReport, text_at, is_set, nonempty, quote_verified,
  set_text_at, info_of, key_derives, authorized, onchain_set, first_attestation, check_block_a,
  check_inner, verify, crashed, not_authorized, quote_unverified, report_data_unbound,
  gpu_not_passed, key_not_derived, no_app_id,
}
use awesome_private_inferenc.Verifiers.Near.LightClient.Inner.{IsClosed, check_inner-IsClosed}

-- Block A for the address and the key of a result.
pub record IsAttested (w : World) (m : Dict String Json) (nonce address key : List ℕ) : Type 0 where
  pub verified : quote_verified (w.check_tdx_quote m) ≡ true
  pub binds_address :
      is_set (lookup "binds_address" (w.check_report_data m nonce (w.check_tdx_quote m))) ≡ true
  pub embeds_nonce :
      is_set (lookup "embeds_nonce" (w.check_report_data m nonce (w.check_tdx_quote m))) ≡ true
  pub gpu_passes : passes (lookup "verdict" (w.check_gpu m nonce)) ≡ true
  pub gpu_nonce : is_set (lookup "nonce_matches" (w.check_gpu m nonce)) ≡ true
  pub is_key : set_text_at "signing_public_key" m ≡ ok key
  pub is_address : set_text_at "signing_address" m ≡ ok address
  pub derived : List ℕ
  pub derives : w.keccak_eth_address key ≡ some derived
  pub same_address : map lower derived ≡ map lower address

key_derives-eq-ok :
    (keccak : List ℕ → Option (List ℕ)) (spk addr : List ℕ) {u : Unit {0}}
    → key_derives keccak spk addr ≡ ok u
    → (derived : List ℕ) × (keccak spk ≡ some derived) × (map lower derived ≡ map lower addr)
key_derives-eq-ok keccak spk addr h = elim (Bool-cases (nonempty spk && nonempty addr)) [
  | inl both ↦
      let (derived, a, last) = >>=-eq-ok (present crashed (keccak spk)) _ (rw both at h) in
      (
        derived,
        present-eq-ok crashed _ a,
        (list_beq_iff nat_eq _ _).0 (require-eq-ok _ key_not_derived last),
      )
  | inr missing ↦ absurd (cc (rw missing at h))
]

check_block_a-IsAttested :
    (w : World) (m : Dict String Json) (nonce : List ℕ) (keys : List ℕ × List ℕ)
    → check_block_a w m nonce ≡ ok keys
    → IsAttested w m nonce keys.0 keys.1
unfolding check_block_a
check_block_a-IsAttested w m nonce keys h =
    let intel = w.check_tdx_quote m in
    let rd = w.check_report_data m nonce intel in
    let gpu = w.check_gpu m nonce in
    let (u, a, h₁) = >>=-eq-ok (require (quote_verified intel) quote_unverified) _ h in
    let (v, b, h₂) =
      >>=-eq-ok
        (require (is_set (lookup "binds_address" rd) && is_set (lookup "embeds_nonce" rd))
          report_data_unbound)
        _ h₁ in
    let (x, c, h₃) =
      >>=-eq-ok
        (require (passes (lookup "verdict" gpu) && is_set (lookup "nonce_matches" gpu))
          gpu_not_passed)
        _ h₂ in
    let (spk, d, h₄) = >>=-eq-ok (set_text_at "signing_public_key" m) _ h₃ in
    let (addr, e, h₅) = >>=-eq-ok (set_text_at "signing_address" m) _ h₄ in
    let (y, f, last) = >>=-eq-ok (key_derives w.keccak_eth_address spk addr) _ h₅ in
    let (address, nonces) =
      &&-eq-true (is_set (lookup "binds_address" rd)) (require-eq-ok _ report_data_unbound b) in
    let (verdict, matches) =
      &&-eq-true (passes (lookup "verdict" gpu)) (require-eq-ok _ gpu_not_passed c) in
    let (derived, g, same) = key_derives-eq-ok w.keccak_eth_address spk addr f in
    let attested : IsAttested w m nonce addr spk = record {
      verified = require-eq-ok _ quote_unverified a;
      binds_address = address;
      embeds_nonce = nonces;
      gpu_passes = verdict;
      gpu_nonce = matches;
      is_key = d;
      is_address = e;
      derived = derived;
      derives = g;
      same_address = same;
    } in
    subst (λ (k : List ℕ × List ℕ). IsAttested w m nonce k.0 k.1) (ok-injective last) attested

-- The set of hashes that a mode asks, and that a compose hash is in it.
abbrev pub IsAuthorized : World → Onchain → Text → Text → Type 0
IsAuthorized w skip app_id compose = Unit
IsAuthorized w static app_id compose =
    contains compose (map (map lower) (fetch_onchain_set_static w.captured app_id)) ≡ true
IsAuthorized w (live min_age) app_id compose =
    (set : List Text) × (fetch_onchain_set_live w.timestamp (w.logs (address_of app_id)) w.now
        min_age
      ≡ some set)
    × (contains compose (map (map lower) set) ≡ true)

authorized-eq-ok :
    (compose : Text) (set : List Text) {found : List Text}
    → authorized compose set ≡ ok found
    → contains compose (map (map lower) set) ≡ true
authorized-eq-ok compose set h =
    let (u, a, last) =
      >>=-eq-ok (require (contains compose (map (map lower) set)) not_authorized) _ h in
    require-eq-ok _ not_authorized a

onchain_set-IsAuthorized :
    (w : World) (mode : Onchain) (app_id compose : Text) (set : List Text)
    → onchain_set w mode app_id compose ≡ ok set
    → IsAuthorized w mode app_id compose
unfolding onchain_set
onchain_set-IsAuthorized w skip app_id compose set h = tt
onchain_set-IsAuthorized w static app_id compose set h = authorized-eq-ok compose _ h
onchain_set-IsAuthorized w (live min_age) app_id compose set h =
    let (found, a, last) =
      >>=-eq-ok
        (present crashed
          (fetch_onchain_set_live w.timestamp (w.logs (address_of app_id)) w.now min_age))
        _ h in
    (found, present-eq-ok crashed _ a, authorized-eq-ok compose found last)

-- What a result of a run rests on.
pub record IsChecked (w : World) (model : String) (mode : Onchain) (nonce : List ℕ)
    (r : LightReport) : Type 0 where
  pub attestation : Dict String Json
  pub info : Dict String Json
  pub app_id : Text
  pub compose : Text
  pub inner : Dict String Json × Json × Json
  pub is_attestation : first_attestation w model nonce ≡ ok attestation
  pub attested : IsAttested w attestation nonce r.signing_address r.signing_public_key
  pub is_info : info_of (lookup "info" attestation) ≡ ok info
  pub is_app_id : text_at "app_id" info ≡ ok app_id
  pub is_compose : text_at "compose_hash" info ≡ ok compose
  pub is_authorized : IsAuthorized w mode (map lower app_id) (map lower compose)
  pub closed : IsClosed attestation model nonce inner
  pub reported : (r.inner_commit ≡ inner.1) × (r.inner_file_sha256 ≡ inner.2)

-- A result is never valid, and it rests on each check: the first model's quote verified, its report data
-- binds the address and the nonce, the GPU passed, the key derives to the address; the compose hash is
-- authorized, unless the mode skips that; the compose manager's report data holds the actions' hash
-- and the nonce; and the last action for the pinned file has the pinned commit and digest.
pub verify-IsChecked :
    (w : World) (model : String) (mode : Onchain) (nonce : List ℕ) (r : LightReport)
    → verify w model mode nonce ≡ ok r
    → (r.valid ≡ false) × IsChecked w model mode nonce r
unfolding verify
verify-IsChecked w model mode nonce r h =
    let (m, a, h₁) = >>=-eq-ok (first_attestation w model nonce) _ h in
    let (keys, b, h₂) = >>=-eq-ok (check_block_a w m nonce) _ h₁ in
    let (info, c, h₃) = >>=-eq-ok (info_of (lookup "info" m)) _ h₂ in
    let (app_id, d, h₄) = >>=-eq-ok (text_at "app_id" info) _ h₃ in
    let (compose, e, h₅) = >>=-eq-ok (text_at "compose_hash" info) _ h₄ in
    let (u, f, h₆) = >>=-eq-ok (require (nonempty app_id && nonempty compose) no_app_id) _ h₅ in
    let (set, g, h₇) = >>=-eq-ok (onchain_set w mode (map lower app_id) (map lower compose)) _ h₆ in
    let (inner, i, last) = >>=-eq-ok (check_inner m model nonce) _ h₇ in
    let result = ok-injective last in
    let attested = check_block_a-IsAttested w m nonce keys b in
    (
      ap (λ (x : LightReport). x.valid) (sym result),
      record {
        attestation = m;
        info = info;
        app_id = app_id;
        compose = compose;
        inner = inner;
        is_attestation = a;
        attested =
            subst (λ (x : LightReport). IsAttested w m nonce x.signing_address x.signing_public_key)
              result attested;
        is_info = c;
        is_app_id = d;
        is_compose = e;
        is_authorized =
            onchain_set-IsAuthorized w mode (map lower app_id) (map lower compose) set g;
        closed = check_inner-IsClosed m model nonce inner i;
        reported = (
          ap (λ (x : LightReport). x.inner_commit) (sym result),
          ap (λ (x : LightReport). x.inner_file_sha256) (sym result),
        );
      },
    )
