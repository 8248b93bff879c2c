-- ===== src/Gym.antt =====
-- The training gym: gym/ledger.py, core.py, host_boundary.py, curriculum.py and the loop of
-- run_curriculum_reference.py.
pub mod Canonical
pub mod Ledger
pub mod Verify
pub mod Turns
pub mod Advances
pub mod Episodes
pub mod Tamper
pub mod Reading
pub mod Steps
pub mod Recording
pub mod Core
pub mod Memory
pub mod MemoryLaws
pub mod Curriculum
pub mod CurriculumLaws
pub mod Promotion
pub mod PromotionLaws
pub mod Registry
pub mod RegistryLaws
pub mod Gateway
pub mod Budget
pub mod Run
pub mod LocalHost
pub mod Finish
pub mod Bundle
pub mod Invariant
pub mod Opening
pub mod Rounds
pub mod Progress
pub mod Termination
pub mod Keeping
pub mod Sessions
pub mod Closing
pub mod Untold
pub mod Admissible
pub mod Admitted
pub mod BundleLaws
pub mod BundleAccepts
pub mod Admission
pub mod Provenance
