-- ===== src/Source/Interface.antt =====
-- `ArtifactSource` of src/artifact_proof/source.py: what the checks and the engine use of a source.
use artifact_proof_lab.Base.{ℕ, String, Option, none, List}
use artifact_proof_lab.Base.Exec.{Exec, pure, ◌>>=◌}
use artifact_proof_lab.Platform.{Platform, Bytes}

pub record ArtifactSource (S : Type 0) : Type 0 where
  pub list_files : S → List String
  pub read_bytes : String → Option ℕ → Exec S Bytes
  pub finalize_snapshot : Exec S String

module _ {S : Type 0} (platform : Platform) (source : ArtifactSource S) where
  -- source.sha256(relative)
  unfoldable pub sha256 : String → Exec S String
  sha256 relative = do bytes ← source.read_bytes relative none; pure (platform.sha256 bytes)
