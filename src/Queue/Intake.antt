-- ===== src/Queue/Intake.antt =====
-- probes/review_queue.py: `event_key` and `Queue.ingest`. The digest of an event with no identifier
-- is a parameter, `hash`.
use awesome_private_inferenc.Prelude.{
  ℕ, ◌+◌, String, Bool, ◌&&◌, ◌||◌, Option, none, some, List, [], ◌∷◌, ◌==◌, string_eq, option_eq,
  pair_eq, list_eq, leb, nat_beq, all, length, if◌then◌else◌,
}
use awesome_private_inferenc.Prelude.Dict.{lookup, insert}
use awesome_private_inferenc.Prelude.Text.{codes}
use awesome_private_inferenc.Json.{Json, str, json_eq, truthy}
use awesome_private_inferenc.Result.{Result, ok, err, ◌>>=◌, ◌>>◌, require}
use awesome_private_inferenc.Queue.Jobs.{
  Event, Job, State, Error, type_error, unsafe_identifier, event_changed, queued, no_details,
  transition,
}
use awesome_private_inferenc.Queue.Store.{Method, transaction}

abbrev pub id_char : ℕ → Bool
id_char c =
    (leb 65 c && leb c 90)
    || (leb 97 c && leb c 122)
    || (leb 48 c && leb c 57)
    || nat_beq c 95
    || nat_beq c 45

-- `re.fullmatch(r"[A-Za-z0-9_-]{8,128}", value)`
unfoldable pub is_safe_id : String → Bool
is_safe_id s = leb 8 (length (codes s)) && leb (length (codes s)) 128 && all id_char (codes s)

unfoldable pub checked_key : Json → Result Error String
checked_key (str s) = do require (is_safe_id s) unsafe_identifier; ok s
checked_key _ = err type_error

-- `event != state["jobs"][key]["event"]`, negated
abbrev pub same_event : Event → Event → Bool
same_event a b = a.event_id == b.event_id && (a.priority == b.priority && a.others == b.others)

-- `{"event_id": key, "event": event, "attempts": 0, ...}`, queued
unfoldable pub new_job : String → Event → ℕ → Job
new_job key event now =
    transition
      (record {
        event_id = key;
        event = event;
        attempts = 0;
        created_at = now;
        updated_at = now;
        status = queued;
        history = [];
        worker = none;
        lease_token = none;
        lease_until = none;
        draft = none;
        review = none;
      })
      queued now no_details

-- One round of the loop of `ingest`, for the event with its identifier set.
unfoldable pub admit : ℕ → String → Event → Option Job → State × ℕ → Result Error (State × ℕ)
admit now key event (some job) (state, added) =
    if same_event job.event event then ok (state, added) else err event_changed
admit now key event none (state, added) =
    ok (record state { jobs = insert key (new_job key event now) state.jobs }, added + 1)

module _ (hash : Event → String) where
  unfoldable pub raw_key : Event → Option Json → Json
  raw_key event none = str (hash event)
  raw_key event (some value) = if truthy value then value else str (hash event)

  unfoldable pub event_key : Event → Result Error String
  event_key event = checked_key (raw_key event event.event_id)

  unfoldable pub ingest_event : ℕ → Event → State × ℕ → Result Error (State × ℕ)
  ingest_event now original (state, added) = do
    key ← event_key original
    admit now key (record original { event_id = some (str key) }) (lookup key state.jobs)
        (state, added)

  unfoldable pub ingest_all : ℕ → List Event → State × ℕ → Result Error (State × ℕ)
  ingest_all now [] acc = ok acc
  ingest_all now (event ∷ events) acc = do
    acc' ← ingest_event now event acc
    ingest_all now events acc'

  unfoldable pub ingest_body : List Event → ℕ → State → Result Error (ℕ × State)
  ingest_body events now state = do
    (state', added) ← ingest_all now events (state, 0)
    ok (added, record state' { last_ingest_at = some now })

  -- `Queue.ingest`
  unfoldable pub ingest : List Event → ℕ → Method ℕ
  ingest events now = transaction (ingest_body events now)
