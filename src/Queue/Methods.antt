-- ===== src/Queue/Methods.antt =====
-- probes/review_queue.py: the bodies of the methods and the steps of one job.
mod Claims
mod Bodies
pub use Claims.*
pub use Bodies.*
