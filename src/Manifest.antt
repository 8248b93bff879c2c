-- ===== src/Manifest.antt =====
-- src/artifact_proof/manifest.py: the strict parser of the verification contract. `Types` holds
-- its records, `Shape` the helpers on JSON values, `Check` one declared check and `Parse` the
-- whole manifest.
pub mod Types
pub mod Shape
pub mod Pointer
pub mod Check
pub mod Parse
pub mod Fits
pub mod ShapeLaws
pub mod CheckLaws
pub mod WellFormed
