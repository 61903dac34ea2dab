-- ===== src/Schema.antt =====
-- probes/schema.py: the vocabulary of outcomes and reasons, `classify_report` and
-- `normalize_checks`. A report is the JSON object that an adapter returned; its `details` is an
-- object and its `error` a text, or they are absent or null.
pub mod Names
pub mod Reports
pub mod Classify
