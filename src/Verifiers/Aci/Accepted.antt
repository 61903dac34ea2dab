-- ===== src/Verifiers/Aci/Accepted.antt =====
-- verifiers/aci.py: what `verify` can report.
use awesome_private_inferenc.Prelude.{
  ℕ, String, ◌≡◌, refl, ap, ◌∙◌, Bool, true, false, ◌&&◌, Option, none, some, List, arith, nat_eq,
  list_eq, string_eq, contains, some-eq, Bool-cases, inl, inr, &&-eq-true, list_beq_iff,
}
use mathlib.Core.Path.{subst}
use awesome_private_inferenc.Prelude.Dict.{lookup}
use awesome_private_inferenc.Prelude.Text.{codes}
use awesome_private_inferenc.Verifiers.Hex.{Bytes, to_hex}
use awesome_private_inferenc.Verifiers.Scores.{
  as_dict, has_required_check_coverage, required_layers,
}
use awesome_private_inferenc.Verifiers.Reports.{AttestationReport}
use awesome_private_inferenc.Verifiers.Aci.EventLog.{
  Event, bind, replayed_rtmr3, event_payload, events_bind_payloads, unique_event,
  event_precedes_boot_boundary,
}
use awesome_private_inferenc.Verifiers.Aci.Decision.{
  World, Answers, plain, or_empty, event_log_bound, compose_bound, archive_prod, scorecard, report,
  verify, hex_is, compose_is,
}

bind-eq-some :
    {A B : Type 0} (o : Option A) (f : A → Option B) {b : B}
    → bind o f ≡ some b
    → (a : A) × (o ≡ some a) × (f a ≡ some b)
bind-eq-some none f h = cc
bind-eq-some (some a) f h = (a, refl, h)

-- What stands behind a served host: the accepted quote, its event log, and the compose file in it.
pub record IsServedBy (w : World) (a : Answers) (host : String) : Type 0 where
  pub rtmr3 : List ℕ
  pub compose : Event
  pub payload : Bytes
  pub hosts : List String
  pub accepted : (w.appraise a.quote).verified ≡ true
  pub preimages : events_bind_payloads w.sha384 a.event_log ≡ true
  pub replays : replayed_rtmr3 w.sha384 a.event_log ≡ some rtmr3
  pub measured : rtmr3 ≡ plain (or_empty (w.appraise a.quote).rtmr3)
  pub unique : unique_event a.event_log (codes "compose-hash") ≡ some compose
  pub before_boot : event_precedes_boot_boundary a.event_log (some compose) ≡ true
  pub decoded : event_payload w.sha384 compose ≡ some payload
  pub hashed : to_hex payload ≡ w.sha256 a.app_compose
  pub configured : w.tee_only_domains a.app_compose ≡ some hosts
  pub enforced : contains host hosts ≡ true

module _ (w : World) where
  record Run (a : Answers) (host nonce : String) (r : AttestationReport) : Type 0 where
    log_bound : Bool
    hosts : List String
    archive : Option Bool
    bound : event_log_bound w a ≡ some log_bound
    configured : w.tee_only_domains a.app_compose ≡ some hosts
    result :
        report w a host log_bound (scorecard w a host nonce log_bound hosts archive) archive ≡ r

  verify-Run :
      (a : Answers) (host nonce : String) {r : AttestationReport}
      → verify w a host nonce ≡ some r
      → Run a host nonce r
  unfolding verify
  verify-Run a host nonce {r} h =
      let (b, e, h') = bind-eq-some (event_log_bound w a) _ h in
      let (hosts, f, h'') = bind-eq-some (w.tee_only_domains a.app_compose) _ h' in
      let (archive, g, last) = bind-eq-some (archive_prod w a b) _ h'' in
      record {
        log_bound = b;
        hosts = hosts;
        archive = archive;
        bound = e;
        configured = f;
        result = some-eq _ _ last;
      }

  -- Whatever the gateway answers, a report of the ACI adapter is not valid and its scorecard has no
  -- check coverage for its own shape: the production OS image is never checked.
  pub verify-never_valid :
      (a : Answers) (host nonce : String) {r : AttestationReport}
      → verify w a host nonce ≡ some r
      → (r.valid ≡ false)
        × (has_required_check_coverage (as_dict r.scorecard) "aci-gateway" ≡ false)
  unfolding report scorecard has_required_check_coverage required_layers lookup
  verify-never_valid a host nonce h =
      let run = verify-Run a host nonce h in
      (
        ground (arith, ap (λ (r : AttestationReport). r.valid) run.result),
        subst
            (λ (r : AttestationReport).
              has_required_check_coverage (as_dict r.scorecard) "aci-gateway" ≡ false)
            run.result (ground arith),
      )

  log_bound-replays :
      (a : Answers)
      → event_log_bound w a ≡ some true
      → ((w.appraise a.quote).verified ≡ true)
        × (events_bind_payloads w.sha384 a.event_log ≡ true)
        × ((rtmr3 : List ℕ) × (replayed_rtmr3 w.sha384 a.event_log ≡ some rtmr3)
            × (rtmr3 ≡ plain (or_empty (w.appraise a.quote).rtmr3)))
  unfolding event_log_bound
  log_bound-replays a h =
      elim (Bool-cases
        ((w.appraise a.quote).verified && events_bind_payloads w.sha384 a.event_log)) [
          | inl both ↦
              let (v, p) = &&-eq-true (w.appraise a.quote).verified both in
              let (rtmr3, found, same) =
                bind-eq-some (replayed_rtmr3 w.sha384 a.event_log) _ (rw both at h) in
              (v, p, (rtmr3, found, (list_beq_iff nat_eq _ _).0 (some-eq _ _ same)))
          | inr fails ↦ absurd (cc (rw fails at h))
        ]

  hex_is-eq :
      (o : Option Bytes) (digest : List ℕ)
      → hex_is w o digest ≡ true
      → (bytes : Bytes) × (o ≡ some bytes) × (to_hex bytes ≡ digest)
  hex_is-eq none digest h = cc
  hex_is-eq (some bytes) digest h = (bytes, refl, (list_beq_iff nat_eq _ _).0 h)

  compose_is-eq :
      (a : Answers) (o : Option Event)
      → compose_is w a o ≡ true
      → (e : Event) × (o ≡ some e)
        × (event_precedes_boot_boundary a.event_log (some e) ≡ true)
        × (hex_is w (event_payload w.sha384 e) (w.sha256 a.app_compose) ≡ true)
  compose_is-eq a none h = cc
  compose_is-eq a (some e) h =
      let (early, hex) = &&-eq-true (event_precedes_boot_boundary a.event_log (some e)) h in
      (e, refl, early, hex)

  -- Where a report says that attested serving is enforced for a host: the quote was accepted, the
  -- log's preimages hash to their digests, the log replays to the quote's RTMR3, the log has one
  -- event "compose-hash", before the boot boundary, whose payload is the hash of the compose file
  -- served, and that file lists the host among the domains that serve from the TEE only.
  pub serving_enforced-IsServedBy :
      (a : Answers) (host nonce : String) {r : AttestationReport}
      → verify w a host nonce ≡ some r
      → r.scorecard.attested_serving_enforced ≡ some true
      → IsServedBy w a host
  unfolding report scorecard compose_bound
  serving_enforced-IsServedBy a host nonce {r} h claimed =
      let run = verify-Run a host nonce h in
      let all_true : ((run.log_bound
              && compose_is w a (unique_event a.event_log (codes "compose-hash")))
            && contains host run.hosts)
          ≡ true =
        some-eq _ _ (
          ap (λ (x : AttestationReport). x.scorecard.attested_serving_enforced) run.result
          ∙ claimed) in
      let (left, listed) =
        &&-eq-true
          (run.log_bound && compose_is w a (unique_event a.event_log (codes "compose-hash")))
          all_true in
      let (bound, is_compose) = &&-eq-true run.log_bound left in
      let (v, p, (rtmr3, replays, measured)) = log_bound-replays a (run.bound ∙ ap some bound) in
      let (e, unique, early, hex) = compose_is-eq a _ is_compose in
      let (payload, decoded, hashed) = hex_is-eq _ _ hex in
      record {
        rtmr3 = rtmr3;
        compose = e;
        payload = payload;
        hosts = run.hosts;
        accepted = v;
        preimages = p;
        replays = replays;
        measured = measured;
        unique = unique;
        before_boot = early;
        decoded = decoded;
        hashed = hashed;
        configured = run.configured;
        enforced = listed;
      }
