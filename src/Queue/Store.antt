-- ===== src/Queue/Store.antt =====
-- probes/review_queue.py: the files that the queue owns, and `Queue.transaction`. The lock makes
-- transactions follow one another; an exception in the body leaves queue.json as it was.
use awesome_private_inferenc.Prelude.{String, Option, none, some, []}
use awesome_private_inferenc.Prelude.Dict.{Dict}
use awesome_private_inferenc.Json.{Json}
use awesome_private_inferenc.Result.{Result, ok, err}
use awesome_private_inferenc.Queue.Jobs.{State, Error, Event, Review}

-- One decision file, by its name.
pub record Decision : Type 0 where
  pub event_id : String
  pub event : Event
  pub draft : Dict String Json
  pub review : Review

pub record Disk : Type 0 where
  pub queue : Option State
  pub decisions : Dict String Decision

-- A method: the result or the exception, and the files afterwards.
abbrev pub Method {ℓ} : Type ℓ → Type ℓ
Method A = Disk → Result Error A × Disk

abbrev pub loaded : Option State → State
loaded none = record { jobs = []; last_ingest_at = none }
loaded (some state) = state

-- `with self.transaction() as state: body`
module _ {ℓ} {A : Type ℓ} where
  abbrev pub commit : Disk → Result Error (A × State) → Result Error A × Disk
  commit disk (ok (a, state)) = (ok a, record disk { queue = some state })
  commit disk (err e) = (err e, disk)

  unfoldable pub transaction : (State → Result Error (A × State)) → Method A
  transaction body disk = commit disk (body (loaded disk.queue))

  -- Tests that a method makes before its transaction.
  unfoldable pub checked : Result Error (Unit {0}) → Method A → Method A
  checked (ok _) m disk = m disk
  checked (err e) m disk = (err e, disk)
