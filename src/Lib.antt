-- ===== src/Lib.antt =====
-- The observatory of private inference: a model of the code that takes in attestation reports and
-- events, appraises them, and leads an event to a published decision.
--
-- The parts and their files. Paths are from the repository's root.
--   probes/review_queue.py, the durable review queue: Queue. A method of the class is a function of
--     the files on disk (Queue/Store); Jobs has the records of queue.json and `transition`, Intake
--     `event_key` and `ingest`, Lease `claim` and `check_lease`, Drafts `submit`, `fail` and
--     `requeue`, Decisions `review`, `publish` and `summary`. Calls has the methods as calls of any
--     number of clients, one after another under the lock; a call that raises leaves queue.json as it
--     was. Moves, Methods and Invariant say what one call may do to one job; Reachable, Diagram,
--     Exclusive, Leased, Choice, Replay and Atomic what follows.
--   probes/review_worker.py, a client of the queue: ReviewWorker (Runs its runs as calls).
--   probes/schema.py, outcomes and reasons: Schema (Names, Reports, Classify).
--   probes/quality.py and probes/trajectory.py, the cadence of versions and the outcome counters:
--     Cadence (Distinct what the counters count).
--   verifiers/common.py, what the adapters share: Verifiers/Hex (`bytes.fromhex`), Scores
--     (`ScoreCard`, the required layers), Ledger (the audit ledger), Bindings (report data), Preimage
--     (the compose files that are withheld; Pattern what the pattern matches), Reports.
--   verifiers/chutes.py: Verifiers/Chutes.
--   verifiers/aci.py: Verifiers/Aci (EventLog the dstack event log, Decision `verify`, Archive the OS
--     image archive; Measured, Accepted and Production what they depend on and report).
--   verifiers/venice.py: Verifiers/Venice (Fresh what a valid report rests on).
--   verifiers/tinfoil.py and verifiers/tinfoil_sev.py: Verifiers/Tinfoil (World what it calls, Sev the
--     report's layout, Config the audit of the configuration, Dcode the names of a certificate,
--     Provenance the signed release, Bundle `verify_bundle`, Routing `verify` and the anchor of
--     models; their children what these rest on).
--   verifiers/near_ai_lightclient.py: Verifiers/Near (Chain the authorized hashes, LightClient
--     `verify`).
--   probes/continuity.py, the changes between observations: Continuity (Compare what one attempt says
--     after another, Derive `derive_events`, Persist `persist_events`; Quiet, Trusted, Deployed and
--     Rerun what follows).
--   probes/assessments.py, the dated assessments of routes: Assessments (Reviewed what it accepts).
--   probes/health.py, the health check of the collection and the queue: Health (Quiet its silence).
--   probes/diffalert.py, findings against acknowledged values: Alerts.
-- An adapter's report feeds Schema, whose outcomes feed the events that the queue takes in; the
-- adapters share Verifiers/Scores and Verifiers/Bindings. Prelude, Json and Result are shared.
--
-- How it is modelled. Numbers are natural numbers; texts are strings, or lists of code points where
-- the code looks inside them. A moment is the number of microseconds since the epoch. Where the code
-- compares two printed stamps as texts, `stamp_order` stands for the order of the texts. A JSON
-- object is a list of fields. An exception is an `err`, or `none` where its kind does not matter.
-- Every loop is structural recursion over what it reads; only the light client's loop over pages has
-- a bound, the 20 pages that the source has. Where `verify_bundle` returns early, its steps end with
-- that report.
--
-- What is an argument. The digest of an event with no identifier; what the standard library says of
-- a piece of evidence; the tokens of `secrets` and the clock; SHA-256, SHA-384, canonical JSON,
-- signatures, the appraisal of quotes, sigstore, Base64, Base32, gzip, UTF-8, the parsing of
-- certificates, YAML, tar and stamps; the printed form of a JSON value that is not a text; and the
-- answers of the services. In the decision of the ACI verifier the result for the OS image archive is
-- an argument too.
--
-- What is not modelled. Requests, argument parsing and printing; the HTML pages; the crash of a
-- write in the middle, since `atomic_json` replaces a file in one step; the details of a report that
-- decide nothing, and the text that an error carries after its fixed part; an audit ledger that fails
-- to load inside the chutes adapter; of the review worker, an `OSError` of any other call than the
-- `fail` inside its `try`, which ends the run. The adapter for NEAR AI, the observation and reference ledgers, the pages that assessments are built
-- into, and the values that the alerts compare. Of Tinfoil, the requests for a signed bundle and the
-- text of a version; of continuity, `load_events` and the paths in an event.
pub mod Prelude
pub mod Json
pub mod Result
pub mod Queue
pub mod ReviewWorker
pub mod Schema
pub mod Cadence
pub mod Verifiers
pub mod Assessments
pub mod Health
pub mod Alerts
pub mod Continuity
mod Tests
