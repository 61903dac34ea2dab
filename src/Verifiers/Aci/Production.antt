-- ===== src/Verifiers/Aci/Production.antt =====
-- verifiers/aci.py: what an answer of `_os_image_is_production` rests on.
use awesome_private_inferenc.Prelude.{
  ℕ, ◌+◌, ◌≤◌, ◌≡◌, refl, sym, ap, ◌∙◌, Bool, true, false, not, Option, none, some, List, [], ◌∷◌,
  ◌++◌, arith, ltb, leb, if◌then◌else◌, length, ◌==◌, nat_eq, list_eq, list_beq_iff, select, map,
  Bool-cases, inl, inr, zero, suc, All,
}
use awesome_private_inferenc.Prelude.Text.{codes}
use awesome_private_inferenc.Result.{ok, require, present, >>=-eq-ok, ok-injective}
use awesome_private_inferenc.Verifiers.Hex.{Bytes}
use awesome_private_inferenc.Verifiers.Bindings.{take}
use awesome_private_inferenc.Verifiers.Aci.Archive.{
  ArchiveError, archive_too_large, not_unique, wrong_hash, unlisted_metadata, unreadable, Member,
  Download, Server, max_archive, max_member, max_expanded, ends_with, Contents, accept, scan,
  single, fits, manifest_binds_metadata, download, judge, os_image_is_production,
}

-- The members by one name, in the order of the archive.
abbrev pub named : List ℕ → List Member → List Bytes
named filename members =
    map (λ (m : Member). m.content) (select (λ m. ends_with filename m.name) members)

abbrev pub total_size : List Member → ℕ
total_size [] = 0
total_size (m ∷ ms) = m.size + total_size ms

abbrev pub IsSmallFile : List ℕ → Member → Type 0
IsSmallFile filename m =
    ends_with filename m.name ≡ true → (m.size ≤ max_member) × (m.is_file ≡ true)

taken_in :
    (filename : List ℕ) (m : Member) (entries entries' : List Bytes)
    → ends_with filename m.name ≡ true
    → accept filename m entries ≡ ok entries'
    → ((m.size ≤ max_member) × (m.is_file ≡ true)) × (entries' ≡ entries ++ m.content ∷ [])
unfolding accept
taken_in filename m entries entries' is_named h = elim (Bool-cases (ltb max_member m.size)) [
  | inl large ↦ absurd (cc (rw (is_named, large) at h))
  | inr small ↦ elim (Bool-cases m.is_file) [
    | inl regular ↦
        ((ground (arith, small), regular), sym (ok-injective (rw (is_named, small, regular) at h)))
    | inr special ↦ absurd (cc (rw (is_named, small, special) at h))
  ]
]

accept-eq-ok :
    (filename : List ℕ) (m : Member) (entries entries' : List Bytes)
    → accept filename m entries ≡ ok entries'
    → IsSmallFile filename m
      × (entries' ≡ (if ends_with filename m.name then entries ++ m.content ∷ [] else entries))
unfolding accept
accept-eq-ok filename m entries entries' h = elim (Bool-cases (ends_with filename m.name)) [
  | inl is_named ↦
      let (small, same) = taken_in filename m entries entries' is_named h in
      (λ _. small, rw is_named same)
  | inr other ↦ (λ e. cc (e, other), rw other (cc (rw other at h)))
]

record IsScanned (expanded : ℕ) (c c' : Contents) (members : List Member) : Type 0 where
  sized : expanded + total_size members ≤ max_expanded
  sums : c'.sums ≡ c.sums ++ named (codes "sha256sum.txt") members
  metadata : c'.metadata ≡ c.metadata ++ named (codes "metadata.json") members
  small :
      All
        (λ m. IsSmallFile (codes "sha256sum.txt") m × IsSmallFile (codes "metadata.json") m)
        members

length-take : (n : ℕ) (xs : Bytes) → length (take (suc n) xs) ≤ n → length xs ≤ n
length-take n [] h = omega arith
length-take zero (x ∷ xs) h = absurd (omega (arith, h))
length-take (suc n) (x ∷ xs) h = omega (arith, length-take n xs (omega (arith, h)))

append_assoc : (xs ys zs : List Bytes) → (xs ++ ys) ++ zs ≡ xs ++ (ys ++ zs)
append_assoc [] ys zs = refl
append_assoc (x ∷ xs) ys zs = ap (λ (l : List Bytes). x ∷ l) (append_assoc xs ys zs)

append_nil : (xs : List Bytes) → xs ++ [] ≡ xs
append_nil [] = refl
append_nil (x ∷ xs) = ap (λ (l : List Bytes). x ∷ l) (append_nil xs)

grown :
    (filename : List ℕ) (m : Member) (ms : List Member) (entries entries' last : List Bytes)
    → entries' ≡ (if ends_with filename m.name then entries ++ m.content ∷ [] else entries)
    → last ≡ entries' ++ named filename ms
    → last ≡ entries ++ named filename (m ∷ ms)
grown filename m ms entries entries' last e h = elim (Bool-cases (ends_with filename m.name)) [
  | inl is_named ↦ rw is_named (
      h
      ∙ ap (λ (l : List Bytes). l ++ named filename ms) (rw is_named at e)
      ∙ append_assoc entries (m.content ∷ []) (named filename ms))
  | inr other ↦ rw other (h ∙ ap (λ (l : List Bytes). l ++ named filename ms) (rw other at e))
]

scan-IsScanned :
    (expanded : ℕ) (c c' : Contents) (members : List Member)
    → expanded ≤ max_expanded
    → scan expanded c members ≡ ok c'
    → IsScanned expanded c c' members
unfolding scan
scan-IsScanned expanded c c' [] fit h = record {
  sized = omega (arith, fit);
  sums = sym (ap (λ (x : Contents). x.sums) (ok-injective h)) ∙ sym (append_nil c.sums);
  metadata = sym (ap (λ (x : Contents). x.metadata) (ok-injective h)) ∙ sym (append_nil c.metadata);
  small = tt;
}
scan-IsScanned expanded c c' (m ∷ ms) fit h =
    let (u, room, h₁) =
      >>=-eq-ok (require (leb (expanded + m.size) max_expanded) archive_too_large) _ h in
    let (sums, s, h₂) = >>=-eq-ok (accept (codes "sha256sum.txt") m c.sums) _ h₁ in
    let (metadata, d, h₃) = >>=-eq-ok (accept (codes "metadata.json") m c.metadata) _ h₂ in
    let (small_s, grown_s) = accept-eq-ok (codes "sha256sum.txt") m c.sums sums s in
    let (small_d, grown_d) = accept-eq-ok (codes "metadata.json") m c.metadata metadata d in
    let rest =
      scan-IsScanned (expanded + m.size) (record { sums = sums; metadata = metadata }) c' ms
        (ground (arith, room)) h₃ in
    record {
      sized = omega (arith, rest.sized);
      sums = grown (codes "sha256sum.txt") m ms c.sums sums c'.sums grown_s rest.sums;
      metadata =
          grown (codes "metadata.json") m ms c.metadata metadata c'.metadata grown_d rest.metadata;
      small = ((small_s, small_d), rest.small);
    }

-- What an answer for an image hash rests on.
pub record IsVouched (s : Server) (hash : List ℕ) (answer : Bool) : Type 0 where
  pub response : Download
  pub members : List Member
  pub sums : Bytes
  pub metadata : Bytes
  pub fetched : s.fetch hash ≡ some response
  pub bounded : length response.body ≤ max_archive
  pub unpacked : s.untar response.body ≡ some members
  pub sized : total_size members ≤ max_expanded
  pub one_manifest : named (codes "sha256sum.txt") members ≡ sums ∷ []
  pub one_metadata : named (codes "metadata.json") members ≡ metadata ∷ []
  pub small :
      All
        (λ m. IsSmallFile (codes "sha256sum.txt") m × IsSmallFile (codes "metadata.json") m)
        members
  pub hashed : s.sha256 sums ≡ hash
  pub listed : manifest_binds_metadata s sums metadata ≡ true
  pub answered : s.is_dev metadata ≡ some (not answer)

take-short : (n : ℕ) (xs : Bytes) → length xs ≤ n → take n xs ≡ xs
take-short zero [] h = refl
take-short zero (x ∷ xs) h = absurd (omega (arith, h))
take-short (suc n) [] h = refl
take-short (suc n) (x ∷ xs) h = ap (λ (l : Bytes). x ∷ l) (take-short n xs (omega (arith, h)))

present-eq-ok : {E A : Type 0} (e : E) (o : Option A) {a : A} → present e o ≡ ok a → o ≡ some a
present-eq-ok e none h = cc
present-eq-ok e (some a) h = ap some (ok-injective h)

single-eq :
    (entries : List Bytes) {entry : Bytes} → single entries ≡ some entry → entries ≡ entry ∷ []
single-eq [] h = cc
single-eq (e ∷ []) h = cc
single-eq (e ∷ f ∷ es) h = cc

module _ (s : Server) where
  download-eq-ok :
      (hash : List ℕ) (compressed : Bytes)
      → download s hash ≡ ok compressed
      → (response : Download) × (s.fetch hash ≡ some response)
        × (length response.body ≤ max_archive)
        × (compressed ≡ response.body)
  unfolding download
  download-eq-ok hash compressed h =
      let (response, f, h₁) = >>=-eq-ok (present unreadable (s.fetch hash)) _ h in
      let (u, small, h₂) =
        >>=-eq-ok (require (fits response.content_length) archive_too_large) _ h₁ in
      let (v, short, last) =
        >>=-eq-ok
          (require (leb (length (take (max_archive + 1) response.body)) max_archive)
            archive_too_large)
          _ h₂ in
      let bounded : length response.body ≤ max_archive =
        length-take max_archive response.body
          (short_enough (length (take (max_archive + 1) response.body)) short) in
      (
        response,
        present-eq-ok unreadable (s.fetch hash) f,
        bounded,
        sym (ok-injective last)
            ∙ take-short (max_archive + 1) response.body (omega (arith, bounded)),
      )
    where
      short_enough :
          (n : ℕ) {u : Unit {0}}
          → require (leb n max_archive) archive_too_large ≡ ok u
          → n ≤ max_archive
      short_enough n h = ground (arith, h)

  -- The answer for an image hash is the metadata's: the archive that was fetched is at most 32 MiB and
  -- its members together at most 64 MiB; it has one sha256sum.txt, which hashes to the image hash,
  -- and one metadata.json, a line of the former binds the latter's digest to its name, and the answer
  -- is that the metadata is not of a development image. No member with either name is larger than
  -- 1 MiB or not a regular file.
  pub production-IsVouched :
      (hash : List ℕ) (answer : Bool)
      → os_image_is_production s hash ≡ ok answer
      → IsVouched s hash answer
  unfolding os_image_is_production judge
  production-IsVouched hash answer h =
      let (compressed, a, h₁) = >>=-eq-ok (download s hash) _ h in
      let (members, b, h₂) = >>=-eq-ok (present unreadable (s.untar compressed)) _ h₁ in
      let (contents, c, h₃) =
        >>=-eq-ok (scan 0 (record { sums = []; metadata = [] }) members) _ h₂ in
      let (sums, d, h₄) = >>=-eq-ok (present not_unique (single contents.sums)) _ h₃ in
      let (metadata, e, h₅) = >>=-eq-ok (present not_unique (single contents.metadata)) _ h₄ in
      let (u, hashed, h₆) = >>=-eq-ok (require (s.sha256 sums == hash) wrong_hash) _ h₅ in
      let (v, listed, h₇) =
        >>=-eq-ok (require (manifest_binds_metadata s sums metadata) unlisted_metadata) _ h₆ in
      let (dev, f, last) = >>=-eq-ok (present unreadable (s.is_dev metadata)) _ h₇ in
      let (response, fetched, bounded, same) = download-eq-ok hash compressed a in
      let scanned =
        scan-IsScanned 0 (record { sums = []; metadata = [] }) contents members (omega arith) c in
      record {
        response = response;
        members = members;
        sums = sums;
        metadata = metadata;
        fetched = fetched;
        bounded = bounded;
        unpacked = ap s.untar (sym same) ∙ present-eq-ok unreadable (s.untar compressed) b;
        sized = from_zero (total_size members) scanned.sized;
        one_manifest =
            sym scanned.sums
            ∙ single-eq contents.sums (present-eq-ok not_unique (single contents.sums) d);
        one_metadata =
            sym scanned.metadata
            ∙ single-eq contents.metadata (present-eq-ok not_unique (single contents.metadata) e);
        small = scanned.small;
        hashed = (list_beq_iff nat_eq _ _).0 (passed _ wrong_hash hashed);
        listed = passed _ unlisted_metadata listed;
        answered =
            present-eq-ok unreadable (s.is_dev metadata) f
            ∙ ap some (twice dev answer (ok-injective last));
      }
    where
      from_zero : (n : ℕ) → 0 + n ≤ max_expanded → n ≤ max_expanded
      from_zero n h = omega (arith, h)

      passed : (test : Bool) (e : ArchiveError) {u : Unit {0}} → require test e ≡ ok u → test ≡ true
      passed true e h = refl
      passed false e h = cc

      twice : (dev answer : Bool) → not dev ≡ answer → dev ≡ not answer
      twice true answer h = cc
      twice false answer h = cc
