-- ===== src/Verifiers/Near/Chain.antt =====
-- verifiers/near_ai_lightclient.py: the compose hashes that a contract authorizes, captured or live.
-- A page of logs, and the reading of a time stamp, are arguments; times are natural numbers of
-- seconds.
pub mod Earliest
use awesome_private_inferenc.Prelude.{
  ℕ, zero, suc, ◌+◌, Bool, true, false, ◌&&◌, not, Option, none, some, List, [], ◌∷◌, ◌++◌, leb,
  ltb, length, if◌then◌else◌, ◌==◌, nat_eq, list_eq, map,
}
use awesome_private_inferenc.Prelude.Dict.{Dict, lookup, insert}
use awesome_private_inferenc.Prelude.Text.{codes, lower, is_prefix, codes_le}
use awesome_private_inferenc.Verifiers.Bindings.{take, drop, without_0x}

abbrev pub Text : Type 0
Text = List ℕ

-- A log entry; a missing field is empty.
pub record LogItem : Type 0 where
  pub topics : List Text
  pub log_data : Text
  pub block_timestamp : Text

-- A page; `next_page_params` is there where it counts as true, and an empty object does not.
pub record Page (Params : Type 0) : Type 0 where
  pub items : List LogItem
  pub next_page_params : Option Params

-- the ComposeHashAdded event
abbrev pub compose_hash_added : Text
compose_hash_added = codes "0xfecb34306dd9d8b785b54d65489d06afc8822a0893ddacedff40c50a4942d0af"

-- `(item.get("topics") or [""])[0]`
abbrev first_topic : List Text → Text
first_topic [] = []
first_topic (t ∷ ts) = t

-- the tests that pass over an entry before its time is read
abbrev is_addition : LogItem → Bool
is_addition item =
    (map lower (first_topic item.topics) == compose_hash_added)
    && (is_prefix (codes "0x") item.log_data && leb 66 (length item.log_data))

abbrev stamped : Text → Option ℕ → Option (Text × ℕ)
stamped hash none = none
stamped hash (some time) = some (hash, time)

-- an entry's hash and time, if it counts; `timestamp` is none on the `ValueError`
unfoldable pub addition : (Text → Option ℕ) → LogItem → Option (Text × ℕ)
addition timestamp item =
    if is_addition item
    then stamped (map lower (take 64 (drop 2 item.log_data))) (timestamp item.block_timestamp)
    else none

abbrev pub is_earlier : ℕ → Option ℕ → Bool
is_earlier time none = true
is_earlier time (some seen) = ltb time seen

-- `if h not in first_seen or ts < first_seen[h]: first_seen[h] = ts`
abbrev pub keep_earliest : Text → ℕ → Dict Text ℕ → Dict Text ℕ
keep_earliest hash time seen =
    if is_earlier time (lookup hash seen) then insert hash time seen else seen

abbrev pub record_addition : Option (Text × ℕ) → Dict Text ℕ → Dict Text ℕ
record_addition none seen = seen
record_addition (some (hash, time)) seen = keep_earliest hash time seen

-- the loop over the entries of a page
unfoldable pub read_items : (Text → Option ℕ) → List LogItem → Dict Text ℕ → Dict Text ℕ
read_items timestamp [] seen = seen
read_items timestamp (item ∷ items) seen =
    read_items timestamp items (record_addition (addition timestamp item) seen)

-- after a page: the next one, if the page names it
abbrev pub continued : {Params A : Type 0} → (Params → A → Option A) → Option Params → A → Option A
continued {Params} {A} more none seen = some seen
continued {Params} {A} more (some next) seen = more next seen

abbrev pub after_page :
    {Params A : Type 0}
    → (List LogItem → A)
    → (Params → A → Option A)
    → Option (Page Params)
    → Option A
after_page {Params} {A} read more none = none
after_page {Params} {A} read more (some page) =
    continued more page.next_page_params (read page.items)

module _ {Params : Type 0} (timestamp : Text → Option ℕ)
    (get : Option Params → Option (Page Params)) where
  -- the loop over at most so many pages; `none` is the exception of a request
  unfoldable pub read_pages : ℕ → Option Params → Dict Text ℕ → Option (Dict Text ℕ)
  read_pages zero params seen = some seen
  read_pages (suc n) params seen =
      after_page (λ items. read_items timestamp items seen) (λ next. read_pages n (some next))
        (get params)

-- `sorted` of hashes
unfoldable pub place : Text → List Text → List Text
place h [] = h ∷ []
place h (k ∷ ks) = if codes_le h k then h ∷ k ∷ ks else k ∷ place h ks

unfoldable pub sort : List Text → List Text
sort [] = []
sort (h ∷ hs) = place h (sort hs)

-- the hashes whose time is at or before the cutoff, which is `min_age_seconds` before `now`
unfoldable pub old_enough : ℕ → ℕ → Dict Text ℕ → List Text
old_enough now min_age [] = []
old_enough now min_age ((hash, time) ∷ rest) =
    let later = old_enough now min_age rest in
    if leb (time + min_age) now then hash ∷ later else later

abbrev pub settled : ℕ → ℕ → Option (Dict Text ℕ) → Option (List Text)
settled now min_age none = none
settled now min_age (some seen) = some (sort (old_enough now min_age seen))

abbrev pub max_pages : ℕ
max_pages = 20

-- `fetch_onchain_set_live` at a time, where `get` fetches the contract's logs
unfoldable pub fetch_onchain_set_live :
    {Params : Type 0}
    → (Text → Option ℕ)
    → (Option Params → Option (Page Params))
    → ℕ
    → ℕ
    → Option (List Text)
fetch_onchain_set_live {Params} timestamp get now min_age =
    settled now min_age (read_pages timestamp get max_pages none [])

-- `"0x" + app_id.lower().removeprefix("0x")`
unfoldable pub address_of : Text → Text
address_of app_id = codes "0x" ++ without_0x (map lower app_id)

abbrev or_no_hashes : Option (List Text) → List Text
or_no_hashes none = []
or_no_hashes (some hashes) = hashes

-- `fetch_onchain_set_static` with the captured file
unfoldable pub fetch_onchain_set_static : Dict Text (List Text) → Text → List Text
fetch_onchain_set_static captured app_id =
    map (map lower) (or_no_hashes (lookup (address_of app_id) captured))
