-- ===== src/Continuity/Persist.antt =====
-- probes/continuity.py: `persist_events` and `load_events`. The directory is a dict from an event's
-- identifier to the event in its file; another process may create a file between the test for it and
-- its creation, `raced`.
use awesome_private_inferenc.Prelude.{
  ℕ, Bool, true, false, Option, none, some, List, [], ◌∷◌, if◌then◌else◌, Eq, ◌==◌, nat_eq, list_eq,
}
use awesome_private_inferenc.Prelude.Dict.{Dict, lookup, insert}
use awesome_private_inferenc.Result.{Result, ok, err, ◌>>=◌}

pub data PersistError : Type 0 where
  collision file_exists : PersistError

module _ {E : Type 0} ⦃e : Eq E⦄ (id : E → List ℕ) where
  abbrev pub Directory : Type 0
  Directory = Dict (List ℕ) E

  -- the file after a call for one event, and whether the call created it
  abbrev pub same_or : PersistError → E → E → Directory → Result PersistError (Directory × Bool)
  same_or error stored event files = if stored == event then ok (files, false) else err error

  -- `path.open("x")`
  abbrev pub create : Option E → E → Directory → Result PersistError (Directory × Bool)
  create none event files = ok (insert (id event) event files, true)
  create (some other) event files = same_or file_exists other event (insert (id event) other files)

  abbrev pub persist_at :
      Option E → Option E → E → Directory → Result PersistError (Directory × Bool)
  persist_at (some stored) raced event files = same_or collision stored event files
  persist_at none raced event files = create raced event files

  -- the body of the loop
  unfoldable pub persist_one :
      (List ℕ → Option E) → E → Directory → Result PersistError (Directory × Bool)
  persist_one raced event files =
      persist_at (lookup (id event) files) (raced (id event)) event files

  -- `persist_events`: the directory after it, and the events whose files it created
  unfoldable pub persist_events :
      (List ℕ → Option E) → List E → Directory → Result PersistError (Directory × List E)
  persist_events raced [] files = ok (files, [])
  persist_events raced (event ∷ events) files = persist_one raced event files >>= λ one.
      persist_events raced events one.0 >>= λ rest.
      ok (rest.0, if one.1 then event ∷ rest.1 else rest.1)
