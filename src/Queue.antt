-- ===== src/Queue.antt =====
-- The review queue (probes/review_queue.py): durable jobs from events to published decisions.
-- `Jobs` holds the data, `Store` the files and the transaction, `Intake`, `Lease`, `Drafts` and
-- `Decisions` the methods of `Queue`; the other modules are about sequences of calls.
pub mod Jobs
pub mod Store
pub mod Intake
pub mod Lease
pub mod Drafts
pub mod Decisions
pub mod Invariant
pub mod Moves
pub mod Methods
pub mod Calls
pub mod Reachable
pub mod Diagram
pub mod Exclusive
pub mod Leased
pub mod Choice
pub mod Replay
pub mod Atomic
