-- ===== src/Verifiers/Near/Chain/Earliest.antt =====
-- verifiers/near_ai_lightclient.py: which hashes are in the live set.
use mathlib.Core.Path.{subst}
use awesome_private_inferenc.Prelude.{
  ℕ, zero, suc, ◌+◌, ◌≡◌, refl, ap, sym, ◌∙◌, Bool, true, false, ◌&&◌, ◌||◌, Option, none, some,
  List, [], ◌∷◌, ◌++◌, leb, if◌then◌else◌, ◌==◌, nat_eq, list_eq, list_beq_iff, any, contains,
  arith, Bool-cases, Option-cases, inl, inr, some-eq,
}
use awesome_private_inferenc.Prelude.Dict.{
  Dict, lookup, lookup-insert, Distinct, Distinct-insert, lookup_absent, map_option,
}
use awesome_private_inferenc.Verifiers.Near.Chain.{
  Text, LogItem, Page, addition, keep_earliest, record_addition, read_items, read_pages, after_page,
  place, sort, old_enough, max_pages, fetch_onchain_set_live, is_earlier, settled,
}

-- What a page adds, and what the first so many pages add, one after another.
abbrev additions_of : (Text → Option ℕ) → List LogItem → List (Text × ℕ)
additions_of timestamp [] = []
additions_of timestamp (item ∷ items) =
    and_then (addition timestamp item) (additions_of timestamp items)
  where
    and_then : Option (Text × ℕ) → List (Text × ℕ) → List (Text × ℕ)
    and_then none rest = rest
    and_then (some a) rest = a ∷ rest

module _ {Params : Type 0} (timestamp : Text → Option ℕ)
    (get : Option Params → Option (Page Params)) where
  unfoldable pub additions : ℕ → Option Params → Option (List (Text × ℕ))
  additions zero params = some []
  additions (suc n) params =
      after_page (additions_of timestamp)
        (λ next found. map_option (λ later. found ++ later) (additions n (some next))) (get params)

abbrev is_old : ℕ → ℕ → ℕ → Bool
is_old now min_age time = leb (time + min_age) now

abbrev old_value : ℕ → ℕ → Option ℕ → Bool
old_value now min_age none = false
old_value now min_age (some time) = is_old now min_age time

abbrev pub is_old_addition : ℕ → ℕ → Text → Text × ℕ → Bool
is_old_addition now min_age hash (h, time) = h == hash && is_old now min_age time

old_value-keep :
    (now min_age : ℕ) (hash h : Text) (time : ℕ) (seen : Dict Text ℕ)
    → old_value now min_age (lookup hash (keep_earliest h time seen))
      ≡ (is_old_addition now min_age hash (h, time) || old_value now min_age (lookup hash seen))
old_value-keep now min_age hash h time seen =
    ground (arith, lookup-insert h hash time seen, list_beq_iff nat_eq h hash)

-- An addition that some page made long enough ago, of a hash.
abbrev found_in : ℕ → ℕ → Text → List (Text × ℕ) → Bool
found_in now min_age hash = any (is_old_addition now min_age hash)

found_in-append :
    (now min_age : ℕ) (hash : Text) (xs ys : List (Text × ℕ))
    → found_in now min_age hash (xs ++ ys)
      ≡ (found_in now min_age hash xs || found_in now min_age hash ys)
found_in-append now min_age hash [] ys = refl
found_in-append now min_age hash (x ∷ xs) ys =
    ground (arith, found_in-append now min_age hash xs ys)

old_value-read_items :
    (timestamp : Text → Option ℕ) (now min_age : ℕ) (hash : Text) (items : List LogItem)
    (seen : Dict Text ℕ)
    → old_value now min_age (lookup hash (read_items timestamp items seen)) ≡ (
        found_in now min_age hash (additions_of timestamp items)
        || old_value now min_age (lookup hash seen))
unfolding read_items
old_value-read_items timestamp now min_age hash [] seen = refl
old_value-read_items timestamp now min_age hash (item ∷ items) seen =
    elim (Option-cases (addition timestamp item)) [
      | inl nothing ↦ rw nothing (old_value-read_items timestamp now min_age hash items seen)
      | inr ((h, time), found) ↦ rw found (
          ground (
            arith,
            old_value-read_items timestamp now min_age hash items (keep_earliest h time seen),
            old_value-keep now min_age hash h time seen,
          ))
    ]

Distinct-if :
    (test : Bool) (d d' : Dict Text ℕ)
    → Distinct d
    → Distinct d'
    → Distinct (if test then d else d')
Distinct-if true d d' h k = h
Distinct-if false d d' h k = k

Distinct-record :
    (a : Option (Text × ℕ)) (seen : Dict Text ℕ) → Distinct seen → Distinct (record_addition a seen)
Distinct-record none seen d = d
Distinct-record (some (h, time)) seen d =
    Distinct-if (is_earlier time (lookup h seen)) _ _ (Distinct-insert h time seen d) d

Distinct-read_items :
    (timestamp : Text → Option ℕ) (items : List LogItem) (seen : Dict Text ℕ)
    → Distinct seen
    → Distinct (read_items timestamp items seen)
unfolding read_items
Distinct-read_items timestamp [] seen d = d
Distinct-read_items timestamp (item ∷ items) seen d =
    Distinct-read_items timestamp items _ (Distinct-record (addition timestamp item) seen d)

contains-place :
    (hash h : Text) (hs : List Text) → contains hash (place h hs) ≡ (h == hash || contains hash hs)
unfolding place
contains-place hash h [] = refl
contains-place hash h (k ∷ ks) = ground (arith, contains-place hash h ks)

contains-sort : (hash : Text) (hs : List Text) → contains hash (sort hs) ≡ contains hash hs
unfolding sort
contains-sort hash [] = refl
contains-sort hash (h ∷ hs) = ground (arith, contains-place hash h (sort hs), contains-sort hash hs)

contains-old_enough :
    (now min_age : ℕ) (hash : Text) (seen : Dict Text ℕ)
    → Distinct seen
    → contains hash (old_enough now min_age seen) ≡ old_value now min_age (lookup hash seen)
unfolding old_enough lookup
contains-old_enough now min_age hash [] d = refl
contains-old_enough now min_age hash ((h, time) ∷ seen) d = elim (Bool-cases (h == hash)) [
  | inl same ↦
      let absent : lookup hash seen ≡ none =
        subst (λ (x : Text). lookup x seen ≡ none) ((list_beq_iff nat_eq h hash).0 same)
          (lookup_absent h seen d.0) in
      ground (arith, same, contains-old_enough now min_age hash seen d.1, absent)
  | inr other ↦ ground (arith, other, contains-old_enough now min_age hash seen d.1)
]

or_false : (b : Bool) → (b || false) ≡ b
or_false true = refl
or_false false = refl

module _ {Params : Type 0} (timestamp : Text → Option ℕ)
    (get : Option Params → Option (Page Params)) (now min_age : ℕ) where
  -- What a run over the pages leaves, for the additions that they hold.
  abbrev Agrees : Dict Text ℕ → Option (List (Text × ℕ)) → Option (Dict Text ℕ) → Type 0
  Agrees seen none none = Unit
  Agrees seen (some found) (some last) =
      Distinct last
      × ((hash : Text)
          → old_value now min_age (lookup hash last)
            ≡ (found_in now min_age hash found || old_value now min_age (lookup hash seen)))
  Agrees seen _ _ = ⊥

  Agrees-append :
      (timestamp_items : List (Text × ℕ)) (seen seen' : Dict Text ℕ)
      (later : Option (List (Text × ℕ))) (last : Option (Dict Text ℕ))
      → ((hash : Text)
          → old_value now min_age (lookup hash seen') ≡ (
              found_in now min_age hash timestamp_items
              || old_value now min_age (lookup hash seen)))
      → Agrees seen' later last
      → Agrees seen (map_option (λ rest. timestamp_items ++ rest) later) last
  Agrees-append items seen seen' none none h a = tt
  Agrees-append items seen seen' none (some l) h a = a
  Agrees-append items seen seen' (some f) none h a = a
  Agrees-append items seen seen' (some f) (some l) h a =
      (a.0, λ hash. ground (arith, h hash, a.1 hash, found_in-append now min_age hash items f))

  read_pages-Agrees :
      (n : ℕ) (params : Option Params) (seen : Dict Text ℕ)
      → Distinct seen
      → Agrees seen (additions timestamp get n params) (read_pages timestamp get n params seen)
  unfolding additions read_pages
  read_pages-Agrees zero params seen d = (d, λ hash. refl)
  read_pages-Agrees (suc n) params seen d = elim (Option-cases (get params)) [
    | inl nothing ↦ rw nothing tt
    | inr (p, found) ↦ elim (Option-cases p.next_page_params) [
      | inl last ↦
          rw (found, last)
            (
              Distinct-read_items timestamp p.items seen d,
              λ hash. old_value-read_items timestamp now min_age hash p.items seen,
            )
      | inr (next, more) ↦
          rw (found, more)
            (Agrees-append (additions_of timestamp p.items) seen (read_items timestamp p.items seen)
              _ _ (λ hash. old_value-read_items timestamp now min_age hash p.items seen)
              (read_pages-Agrees n (some next) (read_items timestamp p.items seen)
                (Distinct-read_items timestamp p.items seen d)))
    ]
  ]

  -- A hash is in the live set just where some of the first twenty pages hold an addition of it that is at
  -- least as old as asked: adding it again later does not take it out. Where one of these pages cannot be
  -- fetched, there is no set.
  pub fetch_onchain_set_live_iff :
      (set : List Text)
      → fetch_onchain_set_live timestamp get now min_age ≡ some set
      → (found : List (Text × ℕ)) × (additions timestamp get max_pages none ≡ some found)
        × ((hash : Text) → contains hash set ≡ any (is_old_addition now min_age hash) found)
  unfolding fetch_onchain_set_live lookup
  fetch_onchain_set_live_iff set h =
      of (additions timestamp get max_pages none) (read_pages timestamp get max_pages none [])
        (read_pages-Agrees max_pages none [] tt) h
    where
      of :
          (a : Option (List (Text × ℕ))) (r : Option (Dict Text ℕ))
          → Agrees [] a r
          → settled now min_age r ≡ some set
          → (found : List (Text × ℕ)) × (a ≡ some found)
            × ((hash : Text) → contains hash set ≡ found_in now min_age hash found)
      of none none a e = cc
      of none (some l) a e = absurd a
      of (some f) none a e = absurd a
      of (some f) (some l) a e = (
        f,
        refl,
        λ hash.
            ap (λ (x : List Text). contains hash x) (sym (some-eq _ set e))
            ∙ contains-sort hash (old_enough now min_age l)
            ∙ contains-old_enough now min_age hash l a.0
            ∙ a.1 hash
            ∙ or_false (found_in now min_age hash f),
      )
