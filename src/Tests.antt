-- ===== src/Tests.antt =====
-- Tests: concrete queues, quotes, logs, bundles and observations on which the theorems are applied.
mod Queues
mod Evidence
mod Routes
mod Tinfoil
mod Near
mod Changes
