-- ===== src/Source.antt =====
-- src/artifact_proof/source.py: bounded access to the files of an artifact. `Limits` holds the
-- limits, `Zip` the archive source, `Directory` the directory source over the answers that the
-- operating system gives (`Disk`).
pub mod Interface
pub mod Limits
pub mod Zip
pub mod ZipLaws
pub mod Disk
pub mod Directory
pub mod DirectoryLaws
pub mod Reads
pub mod Recorded
pub mod Archive
pub mod ArchiveLaws
