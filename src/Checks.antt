-- ===== src/Checks.antt =====
-- src/artifact_proof/checks.py: the observations that a report is made of.
pub mod Identity
pub mod IdentityLaws
pub mod Decimal
pub mod DecimalLaws
pub mod DecimalEq
pub mod Pointer
pub mod PointerSteps
pub mod PointerLaws
pub mod Normal
pub mod Binding
pub mod Declared
pub mod Lasting
pub mod HashLaws
pub mod EnvironmentLaws
