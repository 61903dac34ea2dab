-- ===== src/Verifiers/Tinfoil/Routing/Anchor.antt =====
-- verifiers/tinfoil.py: what the entry point says of the models that the router serves.
use awesome_private_inferenc.Prelude.{
  String, ◌≡◌, ◌≢◌, refl, sym, ap, ◌∙◌, true, false, Option, none, List, [], ◌∷◌, if◌then◌else◌,
  ◌==◌, string_eq, length, contains, All, Bool-cases, inl, inr, ◌⊎◌,
}
use awesome_private_inferenc.Prelude.Dict.{Dict, keys}
use awesome_private_inferenc.Prelude.Text.{text_le, place_text, sort_texts}
use awesome_private_inferenc.Json.{Json}
use awesome_private_inferenc.Result.{ok, >>=-eq-ok, ok-injective}
use awesome_private_inferenc.Verifiers.Ledger.{Key}
use awesome_private_inferenc.Verifiers.Tinfoil.World.{World}
use awesome_private_inferenc.Verifiers.Tinfoil.Bundle.{unpinned_models, Report, verify_bundle}
use awesome_private_inferenc.Verifiers.Tinfoil.Routing.{
  Network, Pins, unpinned_of, pinned_models, served_models, model_repo_anchor, with_anchor,
  enclave_of, verify, default_repo,
}

place_text-ne : (s : String) (ss : List String) → place_text s ss ≢ []
unfolding place_text
place_text-ne s [] h = cc
place_text-ne s (t ∷ ts) h = elim (Bool-cases (text_le s t)) [
  | inl first ↦ cc (rw first at h)
  | inr later ↦ cc (rw later at h)
]

sort_texts-empty : (ss : List String) → sort_texts ss ≡ [] → ss ≡ []
unfolding sort_texts
sort_texts-empty [] h = refl
sort_texts-empty (s ∷ ss) h = absurd (place_text-ne s (sort_texts ss) h)

no_unpinned :
    (pinned : Dict String Json) (served : List String)
    → unpinned_of pinned served ≡ []
    → All (λ m. contains m (keys pinned) ≡ true) served
no_unpinned pinned [] h = tt
no_unpinned pinned (m ∷ ms) h = elim (Bool-cases (contains m (keys pinned))) [
  | inl named ↦ (named, no_unpinned pinned ms (rw named at h))
  | inr other ↦ absurd (cc (rw other at h))
]

with_anchor-valid :
    (report : Report) (names : List String)
    → (names ≡ [])
      ⊎ (((with_anchor report names).valid ≡ false)
          × ((with_anchor report names).error ≡ unpinned_models (length names) names))
unfolding with_anchor
with_anchor-valid report [] = inl refl
with_anchor-valid report (m ∷ ms) = inr (refl, refl)

-- Where the router serves a model that the anchor does not name, the report says so.
pub record IsAnchored (n : Network) (r : Report) : Type 0 where
  pub pinned : Dict String Json
  pub served : List String
  pub are_pinned : pinned_models n ≡ ok pinned
  pub are_served : served_models n ≡ ok served
  pub judged :
      (All (λ m. contains m (keys pinned) ≡ true) served)
      ⊎ ((r.valid ≡ false)
          × (r.error
              ≡ unpinned_models
                  (length (sort_texts (unpinned_of pinned served)))
                  (sort_texts (unpinned_of pinned served))))

judged :
    (pinned : Dict String Json) (served : List String) (report r : Report)
    → with_anchor report (sort_texts (unpinned_of pinned served)) ≡ r
    → (All (λ m. contains m (keys pinned) ≡ true) served)
      ⊎ ((r.valid ≡ false)
          × (r.error
              ≡ unpinned_models
                  (length (sort_texts (unpinned_of pinned served)))
                  (sort_texts (unpinned_of pinned served))))
judged pinned served report r same =
    elim (with_anchor-valid report (sort_texts (unpinned_of pinned served))) [
      | inl nothing ↦
          inl (no_unpinned pinned served (sort_texts-empty (unpinned_of pinned served) nothing))
      | inr says ↦ inr (
        ap (λ (x : Report). x.valid) (sym same) ∙ says.0,
        ap (λ (x : Report). x.error) (sym same) ∙ says.1,
      )
    ]

-- A report for the router, or for a model without an enclave in the catalog, rests on the anchor and the
-- list of served models: either each served model is named in the anchor, or the report is not valid
-- and its error names exactly the served models that are not, in order.
pub verify-IsAnchored :
    {Row : Type 0} (w : World) (n : Network) (ledgers : String → Option (List (Key × Row)))
    (model : String) (r : Report)
    → enclave_of model ≡ none
    → verify w n ledgers model ≡ ok r
    → IsAnchored n r
unfolding verify model_repo_anchor
verify-IsAnchored {Row} w n ledgers model r no_enclave h =
    let (bundle, a, h₁) = >>=-eq-ok n.atc_bundle _ (rw no_enclave at h) in
    let (report, b, h₂) =
      >>=-eq-ok
        (verify_bundle w (ledgers default_repo) bundle (if model == "" then "router" else model)
          default_repo)
        _ h₁ in
    let (pins, c, last) = >>=-eq-ok (model_repo_anchor n) _ h₂ in
    let (pinned, d, h₃) = >>=-eq-ok (pinned_models n) _ c in
    let (served, e, made) = >>=-eq-ok (served_models n) _ h₃ in
    record {
      pinned = pinned;
      served = served;
      are_pinned = d;
      are_served = e;
      judged = judged pinned served report r (
          ap (λ (p : Pins). with_anchor report p.models_unpinned) (ok-injective made)
          ∙ ok-injective last);
    }
