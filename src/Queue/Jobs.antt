-- ===== src/Queue/Jobs.antt =====
-- probes/review_queue.py: the records of queue.json, `transition`, and the stamps. A moment is the
-- number of microseconds since the epoch, since `parse` takes back what `iso` prints; how two
-- printed stamps compare as texts is `stamp_order`.
use Prim.Native.Nat.{◌/◌, ◌%◌}
use awesome_private_inferenc.Prelude.{
  ℕ, ◌+◌, ◌-◌, ◌*◌, String, ◌≡◌, ◌↔◌, Bool, true, false, Option, List, [], ◌∷◌, ◌++◌, Eq, nat_eq,
  string_eq, option_eq, pair_eq, nat_beq, arith,
}
use awesome_private_inferenc.Prelude.Dict.{Dict}
use awesome_private_inferenc.Json.{Json, json_eq}

pub data Status : Type 0 where
  queued running retryable_failure draft_ready blocked reviewed published superseded : Status

abbrev pub status_index : Status → ℕ
status_index queued = 0
status_index running = 1
status_index retryable_failure = 2
status_index draft_ready = 3
status_index blocked = 4
status_index reviewed = 5
status_index published = 6
status_index superseded = 7

abbrev pub status_beq : Status → Status → Bool
status_beq a b = nat_beq (status_index a) (status_index b)

pub status_beq_iff : (a b : Status) → (status_beq a b ≡ true) ↔ (a ≡ b)
status_beq_iff a b = (λ h. ground arith, λ h. ground (arith, h))

instance abbrev pub status_eq : Eq Status
status_eq = record { beq = status_beq; beq_iff = status_beq_iff }

-- TERMINAL
abbrev pub is_terminal : Status → Bool
is_terminal published = true
is_terminal superseded = true
is_terminal _ = false

-- An event: the two fields that the queue reads and sets, and all others.
pub record Event : Type 0 where
  pub event_id : Option Json
  pub priority : Option Json
  pub others : Dict String Json

pub data Disposition : Type 0 where
  accepted rejected needs_evidence : Disposition

pub record Review : Type 0 where
  pub reviewer : String
  pub disposition : Disposition
  pub rationale : String
  pub at : ℕ

-- `**details` of a history entry
pub data Details : Type 0 where
  no_details : Details
  because : String → Details
  by : String → Details
  attempt_by : String → ℕ → Details
  review_of : Review → Details
  decision_file : String → Details

pub record Entry : Type 0 where
  pub at : ℕ
  pub status : Status
  pub details : Details

pub record Job : Type 0 where
  pub event_id : String
  pub event : Event
  pub attempts : ℕ
  pub created_at : ℕ
  pub updated_at : ℕ
  pub status : Status
  pub history : List Entry
  pub worker : Option String
  pub lease_token : Option String
  pub lease_until : Option ℕ
  pub draft : Option (Dict String Json)
  pub review : Option Review

-- queue.json
pub record State : Type 0 where
  pub jobs : Dict String Job
  pub last_ingest_at : Option ℕ

-- The exceptions: `KeyError`, `TypeError`, and each `ValueError` by its message.
pub data Error : Type 0 where
  key_error type_error unsafe_identifier event_changed bad_lease_request : Error
  not_under_lease lease_expired : Error
  draft_incomplete unknown_classification empty_text_field not_a_list_of_text : Error
  missing_evidence bad_evidence reason_required not_requeueable : Error
  review_incomplete not_a_distinct_review not_reviewed decision_immutable : Error

-- `job["status"] = ...; job["updated_at"] = ...; job["history"].append(...)`
unfoldable pub transition : Job → Status → ℕ → Details → Job
transition job status now details = record job {
  status = status;
  updated_at = now;
  history = job.history ++ record { at = now; status = status; details = details } ∷ [];
}

abbrev pub second : ℕ
second = 1000000

-- The order of two stamps as texts. `isoformat` leaves a fraction of zero out, and "Z" stands after
-- ".", so within one second the stamp with no fraction is the last.
unfoldable pub stamp_order : ℕ → ℕ
stamp_order t = t / second * second + (t % second + (second - 1)) % second
