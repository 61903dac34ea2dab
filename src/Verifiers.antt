-- ===== src/Verifiers.antt =====
-- The attestation verifiers (verifiers/*.py): what they share, and each adapter's decision.
pub mod Hex
pub mod Scores
pub mod Ledger
pub mod Bindings
pub mod Reports
pub mod Preimage
pub mod Chutes
pub mod Aci
pub mod Venice
pub mod Tinfoil
pub mod Near
