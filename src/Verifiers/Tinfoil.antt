-- ===== src/Verifiers/Tinfoil.antt =====
-- verifiers/tinfoil.py and verifiers/tinfoil_sev.py: the Tinfoil verifier. `World` is what it calls,
-- `Sev` the layout of an SEV-SNP report, `Config` the audit of the attested configuration, `Dcode`
-- what a certificate's names carry, `Provenance` the signed release, `Bundle` the decision,
-- `Routing` the entry point and the anchor of models to repositories.
pub mod World
pub mod Sev
pub mod Config
pub mod Dcode
pub mod Provenance
pub mod Bundle
pub mod Routing
