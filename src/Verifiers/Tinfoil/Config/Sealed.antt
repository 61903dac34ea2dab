-- ===== src/Verifiers/Tinfoil/Config/Sealed.antt =====
-- verifiers/tinfoil.py: what a configuration that is fully attested rests on.
use awesome_private_inferenc.Prelude.{
  ◌+◌, String, ◌≡◌, refl, ap, ◌∙◌, true, List, [], ◌∷◌, length, arith, nat_eq, list_eq, string_eq,
  All, &&-eq-true, nat_beq, nat_beq_iff,
}
use awesome_private_inferenc.Prelude.Dict.{Dict, lookup}
use awesome_private_inferenc.Json.{Json, null, bool, num, str, arr, obj}
use awesome_private_inferenc.Result.{ok, >>=-eq-ok, ok-injective}
use awesome_private_inferenc.Verifiers.Hex.{Bytes}
use awesome_private_inferenc.Verifiers.Tinfoil.World.{World}
use awesome_private_inferenc.Verifiers.Tinfoil.Config.{
  ContainerEntry, ConfigAudit, fully_attested, as_object, list_at, external_settings, is_pinned,
  audit_container, audit_containers, sum_of, bound_config, audit_attested_config, loaded,
  containers_of,
}
use awesome_private_inferenc.Verifiers.Tinfoil.Config.Committed.{IsBound, bound_config-IsBound}

abbrev pub IsText : Json → Type 0
IsText (str s) = Unit
IsText _ = ⊥

-- A container whose settings are all objects, so that their values stand in the configuration, and
-- which has no secrets.
pub record IsSealed (c : Json) : Type 0 where
  pub container : Dict String Json
  pub env : List Json
  pub is_object : as_object c ≡ ok container
  pub is_env : list_at "env" container ≡ ok env
  pub no_external : All (λ v. ¬ IsText v) env
  pub no_secrets : list_at "secrets" container ≡ ok []

no_external_settings :
    (env : List Json) → length (external_settings env) ≡ 0 → All (λ v. ¬ IsText v) env
unfolding external_settings
no_external_settings [] h = tt
no_external_settings (str s ∷ rest) h = absurd (omega (arith, h))
no_external_settings (null ∷ rest) h = (λ x. x, no_external_settings rest h)
no_external_settings (bool b ∷ rest) h = (λ x. x, no_external_settings rest h)
no_external_settings (num n ∷ rest) h = (λ x. x, no_external_settings rest h)
no_external_settings (arr items ∷ rest) h = (λ x. x, no_external_settings rest h)
no_external_settings (obj fields ∷ rest) h = (λ x. x, no_external_settings rest h)

no_members {ℓ} : {A : Type ℓ} (xs : List A) → length xs ≡ 0 → xs ≡ []
no_members [] h = refl
no_members (x ∷ xs) h = absurd (omega (arith, h))

audit_container-IsSealed :
    (c : Json) (entry : ContainerEntry)
    → audit_container c ≡ ok entry
    → length entry.env_external ≡ 0
    → length entry.secrets_external ≡ 0
    → IsSealed c
unfolding audit_container
audit_container-IsSealed c entry h no_env no_secrets =
    let (d, a, h₁) = >>=-eq-ok (as_object c) _ h in
    let (env, b, h₂) = >>=-eq-ok (list_at "env" d) _ h₁ in
    let (secrets, e, h₃) = >>=-eq-ok (list_at "secrets" d) _ h₂ in
    let (pinned, p, last) = >>=-eq-ok (is_pinned (lookup "image" d)) _ h₃ in
    let result = ok-injective last in
    record {
      container = d;
      env = env;
      is_object = a;
      is_env = b;
      no_external =
          no_external_settings env
            (ap (λ (x : ContainerEntry). length x.env_external) result ∙ no_env);
      no_secrets =
          e
          ∙ ap ok (
              no_members secrets
                (ap (λ (x : ContainerEntry). length x.secrets_external) result ∙ no_secrets));
    }

audit_containers-IsSealed :
    (cs : List Json) (found : List ContainerEntry)
    → audit_containers cs ≡ ok found
    → sum_of (λ e. length e.env_external) found ≡ 0
    → sum_of (λ e. length e.secrets_external) found ≡ 0
    → All IsSealed cs
unfolding audit_containers
audit_containers-IsSealed [] found h no_env no_secrets = tt
audit_containers-IsSealed (c ∷ cs) found h no_env no_secrets =
    let (entry, a, h₁) = >>=-eq-ok (audit_container c) _ h in
    let (rest, b, last) = >>=-eq-ok (audit_containers cs) _ h₁ in
    let result = ok-injective last in
    let env : length entry.env_external + sum_of (λ e. length e.env_external) rest ≡ 0 =
      ap (sum_of (λ e. length e.env_external)) result ∙ no_env in
    let secrets : length entry.secrets_external + sum_of (λ e. length e.secrets_external) rest ≡ 0 =
      ap (sum_of (λ e. length e.secrets_external)) result ∙ no_secrets in
    (
      audit_container-IsSealed c entry a (omega (arith, env)) (omega (arith, secrets)),
      audit_containers-IsSealed cs rest b (omega (arith, env)) (omega (arith, secrets)),
    )

-- What `fully_attested` rests on: a configuration whose digest is in the command line, and in whose
-- containers nothing comes from outside.
pub record IsSealedConfig (w : World) (predicate : Dict String Json) : Type 0 where
  pub config_bytes : Bytes
  pub bound : IsBound w predicate config_bytes
  pub cfg : Dict String Json
  pub is_cfg : loaded (w.yaml config_bytes) ≡ ok cfg
  pub containers : List Json
  pub are_containers : containers_of (lookup "containers" cfg) ≡ ok containers
  pub sealed : All IsSealed containers

-- If the audit of a predicate finds it fully attested, then the predicate's command line holds the
-- label and the digest of the predicate's configuration, and each container of that configuration
-- has no setting that is a bare name and no secret.
pub audit-IsSealedConfig :
    (w : World) (predicate : Dict String Json) (audit : ConfigAudit)
    → audit_attested_config w predicate ≡ ok audit
    → fully_attested audit ≡ true
    → IsSealedConfig w predicate
unfolding audit_attested_config fully_attested
audit-IsSealedConfig w predicate audit h full =
    let (config_bytes, a, h₁) = >>=-eq-ok (bound_config w predicate) _ h in
    let (cfg, b, h₂) = >>=-eq-ok (loaded (w.yaml config_bytes)) _ h₁ in
    let (containers, c, h₃) = >>=-eq-ok (containers_of (lookup "containers" cfg)) _ h₂ in
    let (found, d, last) = >>=-eq-ok (audit_containers containers) _ h₃ in
    let result = ok-injective last in
    let (env, secrets) = &&-eq-true (nat_beq audit.total_env_external 0) full in
    record {
      config_bytes = config_bytes;
      bound = bound_config-IsBound w predicate config_bytes a;
      cfg = cfg;
      is_cfg = b;
      containers = containers;
      are_containers = c;
      sealed =
          audit_containers-IsSealed containers found d
            (ap (λ (x : ConfigAudit). x.total_env_external) result ∙ (nat_beq_iff _ 0).0 env)
            (ap (λ (x : ConfigAudit). x.total_secrets_external) result
              ∙ (nat_beq_iff _ 0).0 secrets);
    }
