-- ===== src/Verifiers/Tinfoil/Provenance.antt =====
-- verifiers/tinfoil.py: the signed release of a repository: the pattern of the identity that may
-- sign it, `_verify_sigstore`, the reference ledger, and the measurement that a release states.
pub mod Identity
pub mod Signed
use awesome_private_inferenc.Prelude.{
  ℕ, String, Bool, true, false, ◌&&◌, ◌||◌, not, Option, none, some, List, [], ◌∷◌, ◌++◌, any,
  nat_beq, length, if◌then◌else◌, ◌==◌, nat_eq, list_eq, string_eq, map, select, contains,
}
use awesome_private_inferenc.Prelude.Dict.{Dict, lookup, map_option}
use awesome_private_inferenc.Prelude.Text.{codes, lower}
use awesome_private_inferenc.Json.{Json, Fields, null, bool, num, str, arr, obj, truthy}
use awesome_private_inferenc.Schema.Reports.{entries, members}
use awesome_private_inferenc.Result.{Result, ok, err, ◌>>=◌, ◌>>◌, require, present}
use awesome_private_inferenc.Verifiers.Ledger.{Key, load_audit_ledger}
use awesome_private_inferenc.Verifiers.Hex.{Bytes}
use awesome_private_inferenc.Verifiers.Tinfoil.World.{
  World, Certificate, Exception, invalid_ledger, missing_key, wrong_type, invalid_json,
  unverified_signature, unexpected_payload_type, unlisted_digest, unsupported_predicate_type,
}
use awesome_private_inferenc.Verifiers.Tinfoil.Config.{Outcome, as_object, iterate, list_at}

abbrev pub gh_oidc_issuer : String
gh_oidc_issuer = "https://token.actions.githubusercontent.com"

abbrev pub predicate_sev_v2 : String
predicate_sev_v2 = "https://tinfoil.sh/predicate/sev-snp-guest/v2"

abbrev pub predicate_multiplatform_v1 : String
predicate_multiplatform_v1 = "https://tinfoil.sh/predicate/snp-tdx-multiplatform/v1"

-- the text after a prefix
unfoldable pub after_prefix : List ℕ → List ℕ → Option (List ℕ)
after_prefix [] text = some text
after_prefix (c ∷ cs) [] = none
after_prefix (c ∷ cs) (d ∷ text) = if nat_beq c d then after_prefix cs text else none

-- `[^@]+` up to an `@`, and the text after that
unfoldable pub up_to_at : List ℕ → Option (List ℕ × List ℕ)
up_to_at [] = none
up_to_at (c ∷ cs) =
    let later = map_option (λ (p : List ℕ × List ℕ). (c ∷ p.0, p.1)) (up_to_at cs) in
    if nat_beq c 64 then some ([], cs) else later

abbrev pub no_at : List ℕ → Bool
no_at [] = true
no_at (c ∷ cs) = not (nat_beq c 64) && no_at cs

abbrev pub is_empty : List ℕ → Bool
is_empty [] = true
is_empty (c ∷ cs) = false

abbrev pub workflow_path : List ℕ → List ℕ
workflow_path repo = codes "https://github.com/" ++ (repo ++ codes "/.github/workflows/")

abbrev pub tag_matches : Option (List ℕ) → Bool
tag_matches none = false
tag_matches (some tag) = not (is_empty tag) && no_at tag

abbrev pub ref_matches : Option (List ℕ × List ℕ) → Bool
ref_matches none = false
ref_matches (some (workflow, ref)) =
    not (is_empty workflow) && tag_matches (after_prefix (codes "refs/tags/") ref)

abbrev pub rest_matches : Option (List ℕ) → Bool
rest_matches none = false
rest_matches (some rest) = ref_matches (up_to_at rest)

-- `_san_regex(repo).match(san)`: neither `[^@]+` can take in an `@`, so the first one ends at the
-- first `@` and the second one is the whole rest
unfoldable pub san_matches : List ℕ → List ℕ → Bool
san_matches repo san = rest_matches (after_prefix (workflow_path repo) san)

abbrev pub any_uri : List ℕ → Option (List (List ℕ)) → Bool
any_uri repo none = false
any_uri repo (some uris) = any (san_matches repo) uris

-- `_SanRegexIdentity.verify`, which raises where this is false
unfoldable pub identity_accepts : List ℕ → Certificate → Bool
identity_accepts repo cert = cert.is_issued_by gh_oidc_issuer && any_uri repo cert.uris

-- `_digest_audited` with the rows of the ledger file, if there is one
unfoldable pub digest_audited :
    {Row : Type 0} → Option (List (Key × Row)) → String → Outcome (Option Bool)
digest_audited {Row} none digest = ok none
digest_audited {Row} (some rows) digest = among (load_audit_ledger rows)
  where
    among : {E : Type 0} → Result E (List Key × Dict Key Row) → Outcome (Option Bool)
    among (err e) = err invalid_ledger
    among (ok (audit_set, meta)) = ok (
        some (
          contains (map lower (codes digest))
            (select (λ entry. nat_beq (length entry) 64) audit_set)))

-- `v.get("digest", {}).get("sha256") == digest`
unfoldable pub names_digest : String → Json → Outcome Bool
names_digest digest subject = as_object subject >>= λ s.
    digests (lookup "digest" s) >>= λ d. ok (is_digest (lookup "sha256" d))
  where
    digests : Option Json → Outcome (Dict String Json)
    digests none = ok []
    digests (some v) = as_object v

    is_digest : Option Json → Bool
    is_digest (some (str s)) = s == digest
    is_digest _ = false

-- `any(...)` over the subjects, which stops at the first one that names the digest
unfoldable pub any_names : String → List Json → Outcome Bool
any_names digest [] = ok false
any_names digest (s ∷ ss) = names_digest digest s >>= λ named.
    let rest = any_names digest ss in if named then ok true else rest

abbrev predicate_type_of : Json → Outcome String
predicate_type_of (str s) = ok s
predicate_type_of _ = err unsupported_predicate_type

-- What the verifier fetched.
pub record Bundle : Type 0 where
  pub domain : String
  pub digest : String
  pub report_format : String
  pub report_body_b64 : String
  pub sigstore_bundle : Json
  pub enclave_cert_pem : String
  pub vcek_b64 : String

module _ (w : World) where
  -- `_verify_sigstore`: the predicate and its type
  unfoldable pub verify_sigstore : Bundle → String → Outcome (Json × Json)
  verify_sigstore bundle repo =
      present unverified_signature
        (w.verify_dsse bundle.sigstore_bundle (identity_accepts (codes repo)))
      >>= λ envelope.
          require (envelope.payload_type == "application/vnd.in-toto+json") unexpected_payload_type
          >> (present invalid_json (w.loads envelope.body) >>= λ parsed.
              as_object parsed >>= λ statement. list_at "subject" statement >>= λ subjects.
              any_names bundle.digest subjects >>= λ listed.
              require listed unlisted_digest
              >> (present missing_key (lookup "predicate" statement) >>= λ predicate.
                  present missing_key (lookup "predicateType" statement) >>= λ predicate_type.
                  ok (predicate, predicate_type)))

-- `_extract_snp_measurement`
unfoldable pub extract_snp_measurement : Json → Json → Outcome Json
extract_snp_measurement predicate predicate_type = predicate_type_of predicate_type >>= λ type_name.
    require (type_name == predicate_multiplatform_v1 || type_name == predicate_sev_v2)
      unsupported_predicate_type
    >> (as_object predicate >>= λ p. present missing_key (lookup "snp_measurement" p))
