-- ===== src/Verifiers/Aci.antt =====
-- verifiers/aci.py: the ACI gateway verifier.
pub mod EventLog
pub mod Measured
pub mod Decision
pub mod Accepted
pub mod Archive
pub mod Production
