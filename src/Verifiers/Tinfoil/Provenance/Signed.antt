-- ===== src/Verifiers/Tinfoil/Provenance/Signed.antt =====
-- verifiers/tinfoil.py: who signed a release that is accepted.
use awesome_private_inferenc.Prelude.{
  ℕ, String, ◌≡◌, refl, ap, ◌∙◌, Bool, true, some, List, [], ◌∷◌, ◌++◌, any, ◌==◌, string_eq, inl,
  inr, Bool-cases, Option-cases, &&-eq-true,
}
use awesome_private_inferenc.Prelude.Text.{codes}
use awesome_private_inferenc.Json.{Json}
use awesome_private_inferenc.Prelude.Dict.{Dict, lookup}
use awesome_private_inferenc.Verifiers.Tinfoil.Config.{as_object, list_at}
use awesome_private_inferenc.Result.{ok, present, require, >>=-eq-ok, require-eq-ok, ok-injective}
use awesome_private_inferenc.Verifiers.Tinfoil.World.{
  World, Certificate, Payload, unverified_signature, unexpected_payload_type, invalid_json,
  unlisted_digest, missing_key,
}
use awesome_private_inferenc.Verifiers.Tinfoil.Config.Committed.{present-eq-ok}
use awesome_private_inferenc.Verifiers.Tinfoil.Provenance.{
  Bundle, names_digest, any_names, san_matches, identity_accepts, gh_oidc_issuer, verify_sigstore,
}
use awesome_private_inferenc.Verifiers.Tinfoil.Provenance.Identity.{IsTagged, san_matches_iff}

-- What sigstore documents of a policy: with `signer` the certificate that a bundle carries, an envelope
-- of a bundle is returned only if the policy takes that certificate.
abbrev pub HonoursPolicy : World → (Json → Certificate) → Type 0
HonoursPolicy w signer =
    (signed : Json) (policy : Certificate → Bool) (envelope : Payload)
    → w.verify_dsse signed policy ≡ some envelope
    → policy (signer signed) ≡ true

-- A certificate of the given issuer, one of whose URIs is a workflow of the repository at a tag.
pub record IsSigner (repo : List ℕ) (cert : Certificate) : Type 0 where
  pub issued : cert.is_issued_by gh_oidc_issuer ≡ true
  pub uris : List (List ℕ)
  pub is_uris : cert.uris ≡ some uris
  pub before : List (List ℕ)
  pub uri : List ℕ
  pub after : List (List ℕ)
  pub listed : uris ≡ before ++ (uri ∷ after)
  pub tagged : IsTagged repo uri

any-split :
    (p : List ℕ → Bool) (xs : List (List ℕ))
    → any p xs ≡ true
    → (before : List (List ℕ)) × (x : List ℕ) × (after : List (List ℕ)) × (xs
        ≡ before ++ (x ∷ after))
      × (p x ≡ true)
any-split p [] h = cc
any-split p (x ∷ xs) h = elim (Bool-cases (p x)) [
  | inl takes ↦ ([], x, xs, refl, takes)
  | inr other ↦
      let (before, y, after, e, takes) = any-split p xs (rw other at h) in
      (x ∷ before, y, after, ap (λ (l : List (List ℕ)). x ∷ l) e, takes)
]

identity_accepts-IsSigner :
    (repo : List ℕ) (cert : Certificate) → identity_accepts repo cert ≡ true → IsSigner repo cert
unfolding identity_accepts
identity_accepts-IsSigner repo cert h =
    let (issued, some_uri) = &&-eq-true (cert.is_issued_by gh_oidc_issuer) h in
    elim (Option-cases cert.uris) [
      | inl nothing ↦ absurd (cc (rw nothing at some_uri))
      | inr (uris, found) ↦
          let (before, uri, after, e, takes) =
            any-split (san_matches repo) uris (rw found at some_uri) in
          record {
            issued = issued;
            uris = uris;
            is_uris = found;
            before = before;
            uri = uri;
            after = after;
            listed = e;
            tagged = (san_matches_iff repo uri).0 takes;
          }
    ]

-- What stands behind a release: an envelope that sigstore returned for the bundle under the policy of
-- the repository, with the signer of that bundle, and an in-toto statement in it that names the digest
-- of the bundle as one of its subjects and holds the release.
pub record IsSigned (w : World) (signer : Json → Certificate) (bundle : Bundle) (repo : String)
    (release : Json × Json) : Type 0 where
  pub envelope : Payload
  pub opened : w.verify_dsse bundle.sigstore_bundle (identity_accepts (codes repo)) ≡ some envelope
  pub signed : IsSigner (codes repo) (signer bundle.sigstore_bundle)
  pub typed : (envelope.payload_type == "application/vnd.in-toto+json") ≡ true
  pub parsed : Json
  pub loaded : w.loads envelope.body ≡ some parsed
  pub statement : Dict String Json
  pub is_statement : as_object parsed ≡ ok statement
  pub subjects : List Json
  pub is_subjects : list_at "subject" statement ≡ ok subjects
  pub before : List Json
  pub subject : Json
  pub after : List Json
  pub among : subjects ≡ before ++ (subject ∷ after)
  pub named : names_digest bundle.digest subject ≡ ok true
  pub is_predicate : lookup "predicate" statement ≡ some release.0
  pub is_type : lookup "predicateType" statement ≡ some release.1

any_names-split :
    (digest : String) (subjects : List Json)
    → any_names digest subjects ≡ ok true
    → (before : List Json) × (subject : Json) × (after : List Json) × (subjects
        ≡ before ++ (subject ∷ after))
      × (names_digest digest subject ≡ ok true)
unfolding any_names
any_names-split digest [] h = cc
any_names-split digest (s ∷ ss) h =
    let (named, first, later) = >>=-eq-ok (names_digest digest s) _ h in
    elim (Bool-cases named) [
      | inl takes ↦ ([], s, ss, refl, first ∙ ap ok takes)
      | inr other ↦
          let (before, subject, after, e, found) = any_names-split digest ss (rw other at later) in
          (s ∷ before, subject, after, ap (λ (l : List Json). s ∷ l) e, found)
    ]

-- Where sigstore honours a policy on the certificate that a bundle carries, a release that
-- `_verify_sigstore` returns for a repository is the predicate of an in-toto statement that sigstore
-- returned for the bundle and that names the bundle's digest; and the certificate of that bundle comes
-- from GitHub's issuer and has a URI that is a workflow of that repository at a tag.
pub verify_sigstore-IsSigner :
    (w : World) (signer : Json → Certificate) (bundle : Bundle) (repo : String)
    (release : Json × Json)
    → HonoursPolicy w signer
    → verify_sigstore w bundle repo ≡ ok release
    → IsSigned w signer bundle repo release
unfolding verify_sigstore
verify_sigstore-IsSigner w signer bundle repo release honours h =
    let (envelope, a, h1) = >>=-eq-ok (present unverified_signature _) _ h in
    let (u, typed, h2) = >>=-eq-ok (require _ unexpected_payload_type) _ h1 in
    let (parsed, loaded, h3) = >>=-eq-ok (present invalid_json _) _ h2 in
    let (statement, is_statement, h4) = >>=-eq-ok (as_object parsed) _ h3 in
    let (subjects, is_subjects, h5) = >>=-eq-ok (list_at "subject" statement) _ h4 in
    let (listed, names, h6) = >>=-eq-ok (any_names bundle.digest subjects) _ h5 in
    let (v, required, h7) = >>=-eq-ok (require listed unlisted_digest) _ h6 in
    let (predicate, has_predicate, h8) =
      >>=-eq-ok (present missing_key (lookup "predicate" statement)) _ h7 in
    let (type_name, has_type, h9) =
      >>=-eq-ok (present missing_key (lookup "predicateType" statement)) _ h8 in
    let opened = present-eq-ok unverified_signature _ a in
    let same : (predicate, type_name) ≡ release = ok-injective h9 in
    let (before, subject, after, among, named) =
      any_names-split bundle.digest subjects
        (names ∙ ap ok (require-eq-ok listed unlisted_digest required)) in
    record {
      envelope = envelope;
      opened = opened;
      signed =
          identity_accepts-IsSigner (codes repo) (signer bundle.sigstore_bundle)
            (honours bundle.sigstore_bundle (identity_accepts (codes repo)) envelope opened);
      typed = require-eq-ok _ _ typed;
      parsed = parsed;
      loaded = present-eq-ok invalid_json _ loaded;
      statement = statement;
      is_statement = is_statement;
      subjects = subjects;
      is_subjects = is_subjects;
      before = before;
      subject = subject;
      after = after;
      among = among;
      named = named;
      is_predicate = present-eq-ok missing_key _ has_predicate ∙ ap (λ p. some p.0) same;
      is_type = present-eq-ok missing_key _ has_type ∙ ap (λ p. some p.1) same;
    }
