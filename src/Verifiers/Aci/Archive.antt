-- ===== src/Verifiers/Aci/Archive.antt =====
-- verifiers/aci.py: `_os_image_is_production` and `_manifest_binds_metadata`. The download, the tar
-- stream, the hash, UTF-8 and the JSON of the metadata are an argument, `Server`.
use awesome_private_inferenc.Prelude.{
  ℕ, ◌+◌, Bool, true, false, ◌&&◌, ◌||◌, not, Option, none, some, List, [], ◌∷◌, ◌++◌, ltb, leb,
  nat_beq, if◌then◌else◌, length, ◌==◌, nat_eq, list_eq, any, map,
}
use awesome_private_inferenc.Prelude.Text.{codes, lower, is_space}
use awesome_private_inferenc.Result.{Result, ok, err, ◌>>=◌, ◌>>◌, require, present}
use awesome_private_inferenc.Verifiers.Hex.{Bytes}
use awesome_private_inferenc.Verifiers.Bindings.{take}

-- `ArchiveTooLarge`, `ValueError`, and the exceptions of the libraries
pub data ArchiveError : Type 0 where
  archive_too_large not_regular not_unique wrong_hash unlisted_metadata unreadable : ArchiveError

pub record Member : Type 0 where
  pub name : List ℕ
  pub size : ℕ
  pub is_file : Bool
  pub content : Bytes

pub record Download : Type 0 where
  pub content_length : Option ℕ
  pub body : Bytes

pub record Server : Type 0 where
  pub fetch : List ℕ → Option Download
  pub untar : Bytes → Option (List Member)
  pub sha256 : Bytes → List ℕ
  pub utf8 : Bytes → Option (List ℕ)
  pub is_dev : Bytes → Option Bool

-- MAX_OS_ARCHIVE_BYTES, MAX_OS_MEMBER_BYTES and MAX_OS_EXPANDED_BYTES
abbrev pub max_archive : ℕ
max_archive = 33554432

abbrev pub max_member : ℕ
max_member = 1048576

abbrev pub max_expanded : ℕ
max_expanded = 67108864

-- the separators of `str.splitlines`; "\r\n" gives one more line here, an empty one
abbrev pub is_line_end : ℕ → Bool
is_line_end c =
    (leb 10 c && leb c 13)
    || ((leb 28 c && leb c 30) || (nat_beq c 133 || (nat_beq c 8232 || nat_beq c 8233)))

abbrev pub extend_line : ℕ → List (List ℕ) → List (List ℕ)
extend_line c [] = (c ∷ []) ∷ []
extend_line c (line ∷ lines) = (c ∷ line) ∷ lines

unfoldable pub split_lines : List ℕ → List (List ℕ)
split_lines [] = [] ∷ []
split_lines (c ∷ cs) =
    let rest = split_lines cs in if is_line_end c then [] ∷ rest else extend_line c rest

unfoldable pub strip_left : (ℕ → Bool) → List ℕ → List ℕ
strip_left p [] = []
strip_left p (c ∷ cs) = let rest = strip_left p cs in if p c then rest else c ∷ cs

-- the text before the first white space, and after it
unfoldable pub cut_word : List ℕ → List ℕ × List ℕ
cut_word [] = ([], [])
cut_word (c ∷ cs) =
    let rest = cut_word cs in
    if is_space c then ([], strip_left is_space cs) else (c ∷ rest.0, rest.1)

-- `line.split(maxsplit=1)`
unfoldable pub split_once : List ℕ → List ℕ × List ℕ
split_once line = cut_word (strip_left is_space line)

-- `removeprefix("./")`
abbrev pub without_dot : List ℕ → List ℕ
without_dot [] = []
without_dot (c ∷ []) = c ∷ []
without_dot (c ∷ d ∷ rest) = if nat_beq c 46 && nat_beq d 47 then rest else c ∷ d ∷ rest

-- `rsplit("/", 1)[-1]`
unfoldable pub base_name : List ℕ → List ℕ
base_name [] = []
base_name (c ∷ cs) =
    let rest = base_name cs in if any (λ d. nat_beq d 47) (c ∷ cs) then rest else c ∷ cs

abbrev pub names_metadata : List ℕ → List ℕ × List ℕ → Bool
names_metadata expected (digest, []) = false
names_metadata expected (digest, (c ∷ cs)) =
    map lower digest == expected
    && base_name (without_dot (strip_left (λ d. nat_beq d 42) (c ∷ cs))) == codes "metadata.json"

-- `name.endswith(suffix)`
unfoldable pub ends_with : List ℕ → List ℕ → Bool
ends_with suffix [] = suffix == []
ends_with suffix (c ∷ cs) = suffix == c ∷ cs || ends_with suffix cs

-- `contents`
pub record Contents : Type 0 where
  pub sums : List Bytes
  pub metadata : List Bytes

-- One round of the inner loop for a file name: `none` where the member has another name.
unfoldable pub accept : List ℕ → Member → List Bytes → Result ArchiveError (List Bytes)
accept filename member entries =
    if not (ends_with filename member.name)
    then ok entries
    else if ltb max_member member.size
    then err archive_too_large
    else if not member.is_file
    then err not_regular
    else ok (entries ++ member.content ∷ [])

unfoldable pub scan : ℕ → Contents → List Member → Result ArchiveError Contents
scan expanded contents [] = ok contents
scan expanded contents (member ∷ members) = do
  require (leb (expanded + member.size) max_expanded) archive_too_large
  sums ← accept (codes "sha256sum.txt") member contents.sums
  metadata ← accept (codes "metadata.json") member contents.metadata
  scan (expanded + member.size) (record { sums = sums; metadata = metadata }) members

-- `entries[0]`, where there is one
abbrev pub single : List Bytes → Option Bytes
single (entry ∷ []) = some entry
single _ = none

abbrev pub fits : Option ℕ → Bool
fits none = true
fits (some n) = leb n max_archive

module _ (s : Server) where
  abbrev pub lists_metadata : Option (List ℕ) → List ℕ → Bool
  lists_metadata none expected = false
  lists_metadata (some text) expected =
      any (λ line. names_metadata expected (split_once line)) (split_lines text)

  -- `_manifest_binds_metadata`
  unfoldable pub manifest_binds_metadata : Bytes → Bytes → Bool
  manifest_binds_metadata sums metadata = lists_metadata (s.utf8 sums) (s.sha256 metadata)

  -- `response.read(MAX_OS_ARCHIVE_BYTES + 1)` and the two tests of the length
  unfoldable pub download : List ℕ → Result ArchiveError Bytes
  download hash = do
    response ← present unreadable (s.fetch hash)
    require (fits response.content_length) archive_too_large
    let compressed = take (max_archive + 1) response.body
    require (leb (length compressed) max_archive) archive_too_large
    ok compressed

  -- the tests of the two members
  unfoldable pub judge : List ℕ → Contents → Result ArchiveError Bool
  judge hash contents = do
    sums ← present not_unique (single contents.sums)
    metadata ← present not_unique (single contents.metadata)
    require (s.sha256 sums == hash) wrong_hash
    require (manifest_binds_metadata sums metadata) unlisted_metadata
    dev ← present unreadable (s.is_dev metadata)
    ok (not dev)

  -- `_os_image_is_production`
  unfoldable pub os_image_is_production : List ℕ → Result ArchiveError Bool
  os_image_is_production hash = do
    compressed ← download hash
    members ← present unreadable (s.untar compressed)
    contents ← scan 0 (record { sums = []; metadata = [] }) members
    judge hash contents
