-- ===== src/Tests/Changes.antt =====
-- Concrete observations and event files for probes/continuity.py.
use awesome_private_inferenc.Prelude.{
  ℕ, String, ◌≡◌, refl, false, Option, none, some, List, [], ◌∷◌, nat_eq, list_eq, All,
}
use awesome_private_inferenc.Prelude.Dict.{Dict, lookup, insert}
use awesome_private_inferenc.Prelude.Text.{codes}
use awesome_private_inferenc.Json.{null}
use awesome_private_inferenc.Result.{ok}
use awesome_private_inferenc.Continuity.{Observation, Body}
use awesome_private_inferenc.Continuity.Derive.{derive_events}
use awesome_private_inferenc.Continuity.Deployed.{IsTrusted, derive_events-IsTrusted}
use awesome_private_inferenc.Continuity.Persist.{persist_one, persist_events}
use awesome_private_inferenc.Continuity.Rerun.{
  Extends, persist_events-stored, persist_events-persist_events,
}

abbrev attempt : String → String → String → Observation
attempt id time outcome = record {
  observation_id = id;
  run_id = "r1";
  captured_at = time;
  route_id = "near";
  outcome = outcome;
  reason = "";
  legacy = false;
  identity_trust = "verified";
  policy_revision = null;
  verifier_revision = null;
  identities =
      record { component_id = "gateway"; kind = "image"; model_scope = ""; value = "v1" } ∷ [];
  adapter_report = [];
  raw_evidence_ref = null;
}

abbrev attempts : List Observation
attempts = attempt "r1/b" "2026-02-01" "verified" ∷ attempt "r1/a" "2026-01-01" "rejected" ∷ []

abbrev digest : Body → List ℕ
digest body = codes body.route_id

abbrev compose_key : String → String → String
compose_key hash name = name

derive_events-IsTrusted_example :
    All (IsTrusted attempts) (derive_events digest compose_key attempts ("near" ∷ "tinfoil" ∷ []))
derive_events-IsTrusted_example =
    derive_events-IsTrusted digest compose_key attempts ("near" ∷ "tinfoil" ∷ [])

-- events as numbers, each its own identifier
abbrev id : ℕ → List ℕ
id n = n ∷ []

abbrev quiet_disk : List ℕ → Option ℕ
quiet_disk key = none

abbrev files : Dict (List ℕ) ℕ
files = (1 ∷ [], 1) ∷ []

abbrev after : Dict (List ℕ) ℕ
after = (1 ∷ [], 1) ∷ (2 ∷ [], 2) ∷ []

persist_events-stored_example :
    All (λ v. lookup (id v) after ≡ some v) (1 ∷ 2 ∷ 2 ∷ []) × Extends id files after
unfolding persist_events persist_one lookup insert
persist_events-stored_example =
    persist_events-stored id quiet_disk (1 ∷ 2 ∷ 2 ∷ []) files (after, 2 ∷ []) refl

persist_events-persist_events_example :
    persist_events id quiet_disk (1 ∷ 2 ∷ 2 ∷ []) after ≡ ok (after, [])
unfolding persist_events persist_one lookup insert
persist_events-persist_events_example =
    persist_events-persist_events id quiet_disk quiet_disk (1 ∷ 2 ∷ 2 ∷ []) files (after, 2 ∷ [])
      refl
