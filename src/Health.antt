-- ===== src/Health.antt =====
-- probes/health.py: `check`. Moments are in microseconds; `parse_aware` is a parameter: the moment of
-- a stamp with its time zone, and none where parsing raises or the zone is missing. A field that is
-- missing or falsy is `none`.
pub mod Quiet
use awesome_private_inferenc.Prelude.{
  ℕ, ◌+◌, ◌*◌, ◌≤◌, ◌<◌, String, ◌≡◌, ◌≢◌, refl, Bool, true, false, ◌&&◌, ◌||◌, not, Option, none,
  some, List, [], ◌∷◌, ◌++◌, arith, ◌==◌, string_eq, option_eq, if◌then◌else◌, ltb, leb,
}
use awesome_private_inferenc.Prelude.Dict.{Dict}
use awesome_private_inferenc.Prelude.Text.{codes, is_infix}

pub record Row : Type 0 where
  pub model : String
  pub last_attempt_at : Option String
  pub verified_at : Option String

pub record Latest : Type 0 where
  pub generated_at : Option String
  pub attestations : Dict String (List Row)

pub record QueueJob : Type 0 where
  pub event_id : String
  pub status : Option String
  pub lease_until : Option String
  pub lease_expired : Bool

pub record QueueStatus : Type 0 where
  pub generated_at : Option String
  pub jobs : List QueueJob

pub record Source : Type 0 where
  pub source_id : Option String
  pub kind : String
  pub status : Option String
  pub observed_at : Option String

-- `agrees is False` is kept of a mirror
pub record References : Type 0 where
  pub observations : List Source
  pub mirror_disagrees : Dict String Bool

pub data Finding : Type 0 where
  missing_collection missing_reference_capture : Finding
  stale_collection : String → Finding
  stale_route : String → String → Option String → Finding
  stale_review_heartbeat : Option String → Finding
  expired_review_lease : String → Finding
  reference_capture_unhealthy : Option String → Option String → Option String → Finding
  reference_mirror_mismatch : String → Finding

abbrev pub hour : ℕ
hour = 3600000000

-- `a or b`
abbrev pub either : Option String → Option String → Option String
either none b = b
either (some a) b = some a

module _ (parse_aware : String → Option ℕ) (now : ℕ) where
  -- the moment of a value; `age` is none where it is none
  abbrev pub moment : Option String → Option ℕ
  moment none = none
  moment (some value) = parse_aware value

  -- `elapsed is None or elapsed < -1 or elapsed > limit`, the limit in hours
  abbrev pub off_limits : Option ℕ → ℕ → Bool
  off_limits none limit = true
  off_limits (some at) limit = ltb (now + hour) at || ltb (at + limit * hour) now

  unfoldable pub stale : Option String → ℕ → Bool
  stale value limit = off_limits (moment value) limit

  abbrev pub found : Bool → Finding → List Finding
  found test finding = if test then finding ∷ [] else []

  unfoldable pub check_rows : ℕ → String → List Row → List Finding
  check_rows max_age provider [] = []
  check_rows max_age provider (row ∷ rows) =
      let attempted = either row.last_attempt_at row.verified_at in
      found (stale attempted max_age) (stale_route provider row.model attempted)
      ++ check_rows max_age provider rows

  unfoldable pub check_providers : ℕ → Dict String (List Row) → List Finding
  check_providers max_age [] = []
  check_providers max_age ((provider, rows) ∷ rest) =
      check_rows max_age provider rows ++ check_providers max_age rest

  -- the first two tests: a view that is not there, has no time, or is old
  abbrev pub check_generated : ℕ → Option String → List Finding
  check_generated max_age none = missing_collection ∷ []
  check_generated max_age (some at) = found (stale (some at) max_age) (stale_collection at)

  unfoldable pub check_latest : ℕ → Option Latest → List Finding
  check_latest max_age none = missing_collection ∷ []
  check_latest max_age (some data_) =
      check_generated max_age data_.generated_at ++ check_providers max_age data_.attestations

  -- `deadline_age is None or deadline_age >= 0`
  abbrev pub is_past : Option ℕ → Bool
  is_past none = true
  is_past (some at) = leb at now

  unfoldable pub is_overdue : QueueJob → Bool
  is_overdue job =
      job.lease_expired || (job.status == some "running" && is_past (moment job.lease_until))

  unfoldable pub check_jobs : List QueueJob → List Finding
  check_jobs [] = []
  check_jobs (job ∷ jobs) =
      found (is_overdue job) (expired_review_lease job.event_id) ++ check_jobs jobs

  unfoldable pub check_queue : ℕ → Option QueueStatus → List Finding
  check_queue queue_age none = []
  check_queue queue_age (some queue) =
      found (stale queue.generated_at queue_age) (stale_review_heartbeat queue.generated_at)
      ++ check_jobs queue.jobs

  -- catalogs are captured weekly
  unfoldable pub limit_of : ℕ → Source → ℕ
  limit_of max_age source = if is_infix (codes "catalog") (codes source.kind) then 192 else max_age

  unfoldable pub is_unhealthy : ℕ → Source → Bool
  is_unhealthy max_age source =
      not (source.status == some "observed") || stale source.observed_at (limit_of max_age source)

  unfoldable pub check_sources : ℕ → List Source → List Finding
  check_sources max_age [] = []
  check_sources max_age (source ∷ sources) =
      found (is_unhealthy max_age source)
        (reference_capture_unhealthy source.source_id source.status source.observed_at)
      ++ check_sources max_age sources

  unfoldable pub check_mirrors : Dict String Bool → List Finding
  check_mirrors [] = []
  check_mirrors ((name, disagrees) ∷ rest) =
      found disagrees (reference_mirror_mismatch name) ++ check_mirrors rest

  abbrev pub is_empty : List Source → Bool
  is_empty [] = true
  is_empty (_ ∷ _) = false

  unfoldable pub check_references : ℕ → Option References → List Finding
  check_references max_age none = []
  check_references max_age (some references) =
      found (is_empty references.observations) missing_reference_capture
      ++ (check_sources max_age references.observations
          ++ check_mirrors references.mirror_disagrees)

  -- `check`
  unfoldable pub check :
      Option Latest → Option QueueStatus → Option References → ℕ → ℕ → List Finding
  check latest queue references max_age queue_age =
      check_latest max_age latest
      ++ (check_queue queue_age queue ++ check_references max_age references)
