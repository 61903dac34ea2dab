-- ===== src/Verifiers/Venice/Fresh.antt =====
-- verifiers/venice.py: what stands behind a report that is valid, and which nonces it can serve.
use mathlib.Core.Path.{subst}
use awesome_private_inferenc.Prelude.{
  ℕ, String, ◌≡◌, refl, sym, ap, ◌∙◌, Bool, true, ◌||◌, not, Option, none, some, List, arith,
  is_some, Bool-cases, inl, inr, nat_beq, some-eq, &&-eq-true,
}
use awesome_private_inferenc.Prelude.Dict.{Dict}
use awesome_private_inferenc.Json.{Json}
use awesome_private_inferenc.Verifiers.Hex.{Bytes, from_hex}
use awesome_private_inferenc.Verifiers.Bindings.{
  without_0x, phala_report_data_binds_addr_nonce, report_data_binds-inj,
}
use awesome_private_inferenc.Verifiers.Reports.{AttestationReport}
use awesome_private_inferenc.Verifiers.Venice.{
  World, status, quote_hex, binds_key, key_derives, gpu_attested, scorecard, is_valid, appraised,
  failure, verify, with_quote, signing_address, signing_public_key, wants_gpu, nvidia_payload,
  or_empty, counts,
}

-- What a valid report rests on.
pub record IsBacked (w : World) (att : Dict String Json) (nonce : List ℕ) : Type 0 where
  pub quote : Json
  pub given : quote_hex att ≡ some quote
  pub accepted : (w.appraise quote).verified ≡ true
  pub bound : binds_key w att quote nonce ≡ true
  pub derived : is_some (signing_public_key att) ≡ true → key_derives w att ≡ some true
  pub attested : wants_gpu w (nvidia_payload att) ≡ true → gpu_attested w att ≡ some (some true)

module _ (w : World) where
  counts-eq : (o : Option Bool) → counts o ≡ true → o ≡ some true
  counts-eq none h = cc
  counts-eq (some b) h = ap some h

  scored-IsBacked :
      (att : Dict String Json) (quote : Json) (nonce : List ℕ) (gpu : Option Bool)
      → quote_hex att ≡ some quote
      → gpu_attested w att ≡ some gpu
      → is_valid w att (scorecard w att quote nonce gpu) ≡ true
      → IsBacked w att nonce
  unfolding is_valid scorecard
  scored-IsBacked att quote nonce gpu e g h =
      let (verified, rest) = &&-eq-true (w.appraise quote).verified h in
      let (bound, last) = &&-eq-true (binds_key w att quote nonce) rest in
      let (derives, gpus) =
        &&-eq-true (not (is_some (signing_public_key att)) || counts (key_derives w att)) last in
      record {
        quote = quote;
        given = e;
        accepted = verified;
        bound = bound;
        derived = λ has_key. counts-eq (key_derives w att) (ground (arith, has_key, derives));
        attested = λ wants. g ∙ ap some (counts-eq gpu (ground (arith, wants, gpus)));
      }

  quoted-IsBacked :
      (model : String) (att : Dict String Json) (nonce : List ℕ) (o : Option Json)
      (gpu : Option (Option Bool)) {r : AttestationReport}
      → quote_hex att ≡ o
      → gpu_attested w att ≡ gpu
      → with_quote w model att nonce o ≡ some r
      → r.valid ≡ true
      → IsBacked w att nonce
  unfolding failure appraised
  quoted-IsBacked model att nonce none gpu e g h v =
      absurd (cc (ap (λ (r : AttestationReport). r.valid) (some-eq _ _ h), v))
  quoted-IsBacked model att nonce (some quote) none e g h v = absurd (cc (rw g at h))
  quoted-IsBacked model att nonce (some quote) (some gpu) e g h v =
      scored-IsBacked att quote nonce gpu e g
        (ap (λ (r : AttestationReport). r.valid) (some-eq _ _ (rw g at h)) ∙ v)

  -- A report of the Venice adapter that is valid rests on a response with status 200 that holds a
  -- quote, which was accepted, whose report data binds the signing address and the nonce. A public
  -- key that counts as true derives to that address, compared without regard to case. An
  -- nvidia_payload that counts as true, once it was parsed where it is a text, passed its attestation;
  -- nothing is said of one that does not, such as the text of an empty object.
  pub valid-IsBacked :
      (model : String) (code : ℕ) (att : Dict String Json) (nonce : List ℕ) {r : AttestationReport}
      → verify w model (status code att) nonce ≡ some r
      → r.valid ≡ true
      → (code ≡ 200) × IsBacked w att nonce
  unfolding verify failure
  valid-IsBacked model code att nonce h v = elim (Bool-cases (nat_beq code 404)) [
    | inl missing ↦
        absurd (cc (ap (λ (r : AttestationReport). r.valid) (some-eq _ _ (rw missing at h)), v))
    | inr found ↦ elim (Bool-cases (nat_beq code 200)) [
      | inl fine ↦ (
        ground (arith, fine),
        quoted-IsBacked model att nonce (quote_hex att) (gpu_attested w att) refl refl
            (rw (found, fine) at h) v,
      )
      | inr fails ↦
          absurd
            (cc (ap (λ (r : AttestationReport). r.valid) (some-eq _ _ (rw (found, fails) at h)), v))
    ]
  ]

  -- A response cannot be replayed: if the same response is valid for two nonces, and its signing
  -- address is in hex, then the nonces are the same.
  pub valid_fresh :
      (model : String) (code : ℕ) (att : Dict String Json) (nonce nonce' : List ℕ) (address : Bytes)
      {r r' : AttestationReport}
      → from_hex (without_0x (signing_address att)) ≡ some address
      → verify w model (status code att) nonce ≡ some r
      → r.valid ≡ true
      → verify w model (status code att) nonce' ≡ some r'
      → r'.valid ≡ true
      → nonce ≡ nonce'
  unfolding binds_key
  valid_fresh model code att nonce nonce' address read h v h' v' =
      let (_, b) = valid-IsBacked model code att nonce h v in
      let (_, c) = valid-IsBacked model code att nonce' h' v' in
      let same : c.quote ≡ b.quote = some-eq _ _ (sym c.given ∙ b.given) in
      let (_, e) =
        report_data_binds-inj (or_empty (w.appraise b.quote).reportdata) (signing_address att)
          (signing_address att) nonce nonce' address address read read refl b.bound
          (subst
            (λ q.
              phala_report_data_binds_addr_nonce (or_empty (w.appraise q).reportdata)
                (signing_address att) nonce'
              ≡ true)
            same c.bound) in
      e
