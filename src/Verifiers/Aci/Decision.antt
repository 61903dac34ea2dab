-- ===== src/Verifiers/Aci/Decision.antt =====
-- verifiers/aci.py: `verify`, `_quote_binds_digest`, `_keyset_identity` and `_endorsement_verifies`.
-- The hashes, the canonical JSON, the signature checks, the appraisal of the quote, the YAML of the
-- compose file and the OS image archive are an argument, `World`.
use awesome_private_inferenc.Prelude.{
  ℕ, ◌+◌, ◌*◌, String, Bool, true, false, ◌&&◌, not, Option, none, some, List, [], ◌∷◌, ◌++◌,
  nat_beq, length, ◌==◌, nat_eq, list_eq, string_eq, option_eq, contains, map, if◌then◌else◌,
}
use awesome_private_inferenc.Prelude.Text.{codes, lower}
use awesome_private_inferenc.Json.{Json, str, obj, field, end}
use awesome_private_inferenc.Verifiers.Hex.{Bytes, from_hex, to_hex}
use awesome_private_inferenc.Verifiers.Bindings.{take, drop, without_0x}
use awesome_private_inferenc.Verifiers.Scores.{ScoreCard, blank}
use awesome_private_inferenc.Verifiers.Reports.{AttestationReport, not_checked, rejected}
use awesome_private_inferenc.Verifiers.Aci.EventLog.{
  Event, bind, zeros, replayed_rtmr3, event_payload, events_bind_payloads, unique_event,
  event_precedes_boot_boundary,
}

pub record Appraisal : Type 0 where
  pub verified : Bool
  pub reportdata : Option (List ℕ)
  pub rtmr3 : Option (List ℕ)

-- `_os_image_is_production`: its result, `ArchiveTooLarge`, or another exception
pub data Archive : Type 0 where
  declares : Bool → Archive
  too_large : Archive
  broken : Archive

pub record World : Type 0 where
  pub sha256 : List ℕ → List ℕ
  pub sha384 : Bytes → Bytes
  pub jcs : Json → List ℕ
  pub ed25519 : Bytes → Bytes → List ℕ → Bool
  pub secp256k1 : Bytes → ℕ → ℕ → List ℕ → Bool
  pub appraise : List ℕ → Appraisal
  pub tee_only_domains : List ℕ → Option (List String)
  pub os_image : List ℕ → Archive

-- `keyset["workload_identity"]["public_key"]`: two of its fields, and all of it
pub record IdentityKey : Type 0 where
  pub algo : List ℕ
  pub public_key : List ℕ
  pub whole : Json

pub record Endorsement : Type 0 where
  pub algo : List ℕ
  pub value : List ℕ

-- What the gateway answers, by the fields that `verify` decides on; a request that fails, or an answer
-- with none of these fields, ends `verify` with an exception before it decides.
pub record Answers : Type 0 where
  pub served_digest : String
  pub keyset : Json
  pub identity_key : Option IdentityKey
  pub endorsement : Option Endorsement
  pub workload_id : Option String
  pub report_data : List ℕ
  pub quote : List ℕ
  pub event_log : List Event
  pub app_compose : List ℕ
  pub os_image_hash : List ℕ
  pub sessions_carry_evidence : Bool
  pub catalog_nonempty : Bool

-- `text.removeprefix("0x").lower()`
abbrev pub plain : List ℕ → List ℕ
plain text = map lower (without_0x text)

abbrev pub or_empty : Option (List ℕ) → List ℕ
or_empty none = []
or_empty (some text) = text

-- `int.from_bytes(data, "big")`
abbrev pub big_endian : ℕ → Bytes → ℕ
big_endian acc [] = acc
big_endian acc (b ∷ bs) = big_endian (acc * 256 + b) bs

abbrev padded_to : Option Bytes → Option Bytes → Bool
padded_to (some raw) (some digest) = raw == digest ++ zeros 32
padded_to _ _ = false

-- `_quote_binds_digest`
unfoldable pub quote_binds_digest : Option (List ℕ) → List ℕ → Bool
quote_binds_digest reportdata digest =
    padded_to (bind reportdata (λ text. from_hex (without_0x text))) (from_hex digest)

-- the dict `statement`
unfoldable pub statement : String → String → Option String → Json
statement served nonce none = obj (
    field "keyset_digest" (str served)
      (field "nonce" (str nonce) (field "purpose" (str "aci.report_data.v1") end)))
statement served nonce (some id) = obj (
    field "workload_id" (str id) (
      field "workload_keyset_digest" (str served)
        (field "nonce" (str nonce) (field "purpose" (str "aci.report_data.v1") end))))

unfoldable pub endorsement_payload : String → Json
endorsement_payload digest = obj (
    field "purpose" (str "aci.keyset.endorsement.v1")
      (field "workload_keyset_digest" (str digest) end))

-- `getattr(scorecard, f)` in a test
abbrev pub holds : Option Bool → Bool
holds none = false
holds (some b) = b

abbrev is_denied : Option Bool → Bool
is_denied (some false) = true
is_denied _ = false

abbrev is_unread : Option Bool → Bool
is_unread none = true
is_unread _ = false

module _ (w : World) where
  unfoldable pub signature_verifies : List ℕ → Option Bytes → Option Bytes → List ℕ → Bool
  signature_verifies algo (some signature) (some key) payload =
      if algo == codes "ed25519"
      then w.ed25519 key signature payload
      else algo == codes "ecdsa-secp256k1"
        && (nat_beq (length signature) 64
            && w.secp256k1 key (big_endian 0 (take 32 signature)) (big_endian 0 (drop 32 signature))
                payload)
  signature_verifies algo _ _ payload = false

  -- `_endorsement_verifies`; every exception that it catches gives False
  unfoldable pub endorsement_verifies : Option IdentityKey → Option Endorsement → String → Bool
  endorsement_verifies (some key) (some e) digest =
      key.algo == e.algo
      && signature_verifies key.algo (from_hex e.value) (from_hex (without_0x key.public_key))
          (w.jcs (endorsement_payload digest))
  endorsement_verifies _ _ digest = false

  abbrev is_identity : String → Option IdentityKey → Bool
  is_identity id (some key) = codes id == codes "sha256:" ++ w.sha256 (w.jcs key.whole)
  is_identity id none = false

  -- `identity_ok`
  unfoldable pub identity_ok : Answers → Option String → Bool
  identity_ok a none = true
  identity_ok a (some id) =
      is_identity id a.identity_key
      && endorsement_verifies a.identity_key a.endorsement a.served_digest

  unfoldable pub expected_report_data : Answers → String → List ℕ
  expected_report_data a nonce = w.sha256 (w.jcs (statement a.served_digest nonce a.workload_id))

  unfoldable pub quote_binds : Answers → String → Bool
  quote_binds a nonce =
      (w.appraise a.quote).verified
      && quote_binds_digest (w.appraise a.quote).reportdata (expected_report_data a nonce)

  unfoldable pub nonce_bound : Answers → String → Bool
  nonce_bound a nonce = plain a.report_data == expected_report_data a nonce && quote_binds a nonce

  -- `event_log_bound`; `none` is the exception of the replay
  unfoldable pub event_log_bound : Answers → Option Bool
  event_log_bound a =
      if (w.appraise a.quote).verified && events_bind_payloads w.sha384 a.event_log
      then bind (replayed_rtmr3 w.sha384 a.event_log)
          (λ rtmr3. some (rtmr3 == plain (or_empty (w.appraise a.quote).rtmr3)))
      else some false

  abbrev pub hex_is : Option Bytes → List ℕ → Bool
  hex_is (some bytes) digest = to_hex bytes == digest
  hex_is none digest = false

  -- A payload is read only in a bound log, where it is in hex.
  abbrev pub compose_is : Answers → Option Event → Bool
  compose_is a (some e) =
      event_precedes_boot_boundary a.event_log (some e)
      && hex_is (event_payload w.sha384 e) (w.sha256 a.app_compose)
  compose_is a none = false

  abbrev os_is : Answers → Option Event → Bool
  os_is a (some e) = hex_is (event_payload w.sha384 e) (plain a.os_image_hash)
  os_is a none = false

  unfoldable pub compose_bound : Answers → Bool → Bool
  compose_bound a log_bound =
      log_bound && compose_is a (unique_event a.event_log (codes "compose-hash"))

  unfoldable pub os_bound : Answers → Bool → Bool
  os_bound a log_bound = log_bound && os_is a (unique_event a.event_log (codes "os-image-hash"))

  abbrev archive_result : Archive → Option (Option Bool)
  archive_result (declares b) = some (some b)
  archive_result too_large = some none
  archive_result broken = none

  -- `archive_prod`, where no other exception ends `verify`
  unfoldable pub archive_prod : Answers → Bool → Option (Option Bool)
  archive_prod a log_bound =
      if os_bound a log_bound
      then archive_result (w.os_image (plain a.os_image_hash))
      else some (some false)

  unfoldable pub scorecard :
      Answers → String → String → Bool → List String → Option Bool → ScoreCard
  scorecard a host nonce log_bound hosts archive = record blank {
    nonce_bound = some (nonce_bound a nonce);
    report_data_binds_key = some (
        codes a.served_digest == codes "sha256:" ++ w.sha256 (w.jcs a.keyset)
        && (nonce_bound a nonce && identity_ok a a.workload_id));
    tdx_verified = some (w.appraise a.quote).verified;
    compose_hash_committed = some (compose_bound a log_bound);
    prod_os_image = none;
    os_image_archive_declares_production = archive;
    attested_serving_enforced = some (compose_bound a log_bound && contains host hosts);
    sessions_publish_evidence_digests = some a.sessions_carry_evidence;
    catalog_nonempty = some a.catalog_nonempty;
  }

  unfoldable pub binding_ok : Answers → Bool → ScoreCard → Bool
  binding_ok a log_bound s =
      holds s.nonce_bound
      && (holds s.report_data_binds_key
          && (holds s.tdx_verified
              && (holds s.compose_hash_committed
                  && (holds s.attested_serving_enforced && os_bound a log_bound))))

  unfoldable pub report : Answers → String → Bool → ScoreCard → Option Bool → AttestationReport
  report a host log_bound s archive = record {
    provider = "aci-gateway";
    model = host;
    valid =
        holds s.nonce_bound
        && (holds s.report_data_binds_key
            && (holds s.tdx_verified
                && (holds s.compose_hash_committed
                    && (holds s.prod_os_image && holds s.attested_serving_enforced))));
    attestation_type = "aci-gateway";
    signing_address = "";
    signing_public_key = "";
    scorecard = s;
    verification_status =
        some
          (if binding_ok a log_bound s && not (is_denied archive) then not_checked else rejected);
    verification_reason = some (
        if binding_ok a log_bound s && is_unread archive
        then "OS archive exceeded bounded metadata check; boot measurements and request path remain unverified"
        else if binding_ok a log_bound s && holds archive
        then "OS boot measurements MRTD/RTMR0-2 and request path were not verified"
        else "one or more authenticated quote, event, OS event, or host-policy checks failed");
    error = none;
  }

  -- `verify` of the answers to a nonce; `none` where it raises
  unfoldable pub verify : Answers → String → String → Option AttestationReport
  verify a host nonce = bind (event_log_bound a) (λ log_bound.
      bind (w.tee_only_domains a.app_compose) (λ hosts. bind (archive_prod a log_bound) (λ archive.
        some (report a host log_bound (scorecard a host nonce log_bound hosts archive) archive))))
