-- ===== src/Engine.antt =====
-- src/artifact_proof/engine.py: one verification of an artifact, from its request to its report.
-- The source that `open_source` gives, or its exception, is an argument.
pub mod Stages
pub mod Verified
pub mod Passing
pub mod Snapshot
pub mod Failing
use Prim.Native.String.{◌++◌ as append}
use artifact_proof_lab.Base.{
  ℕ, ◌*◌, String, Bool, true, false, Option, none, some, List, [], ◌∷◌, ◌++◌, mem,
}
use artifact_proof_lab.Base.Outcome.{
  Exception, manifest_error, source_error, value_error, zip_error, action_rejected,
  curriculum_error, crash, Result, ok, raise, require,
}
use artifact_proof_lab.Base.Outcome
use artifact_proof_lab.Base.Exec.{Exec, pure, lift, ◌>>=◌, ◌>>◌}
use artifact_proof_lab.Json.{str}
use artifact_proof_lab.Model.{Status, pass, fail, Finding, Report}
use artifact_proof_lab.Paths.{canonical_relative_path}
use artifact_proof_lab.Platform.{Platform, Bytes}
use artifact_proof_lab.Manifest.Types.{Manifest, CheckSpec, supported_profiles}
use artifact_proof_lab.Manifest.Shape.{is_sha256}
use artifact_proof_lab.Manifest.Parse.{parse_manifest}
use artifact_proof_lab.Source.Interface.{ArtifactSource}
use artifact_proof_lab.Checks.Identity.{
  finding, verify_manifest_anchor, verify_coverage, verify_file_hashes,
}
use artifact_proof_lab.Checks.Declared.{run_declared_check}

-- The arguments of `verify_artifact`.
pub record Request : Type 0 where
  pub artifact : String
  pub manifest_path : String
  pub profile : String
  pub manifest_sha256 : Option String
  pub require_trust_anchor : Bool

-- Its local variables, and the source that it reads.
pub record Session (S : Type 0) : Type 0 where
  pub source : S
  pub findings : List Finding
  pub manifest_sha256 : Option String
  pub source_snapshot_sha256 : Option String
  pub artifact_name : Option String
  pub artifact_version : Option String

abbrev pub start : {S : Type 0} → S → Session S
start s = record {
  source = s;
  findings = [];
  manifest_sha256 = none;
  source_snapshot_sha256 = none;
  artifact_name = none;
  artifact_version = none;
}

-- manifest_sha256 is not None and not _SHA256.fullmatch(manifest_sha256), negated
abbrev pub anchor_format : Option String → Bool
anchor_format none = true
anchor_format (some digest) = is_sha256 digest

-- What is tested before the source is opened; the result is the canonical path of the manifest.
unfoldable pub prepare : Platform → Request → Result String
unfolding is_sha256
prepare platform request =
    Outcome.◌>>◌
      (require (mem request.profile supported_profiles) (manifest_error "unsupported profile"))
      (Outcome.◌>>=◌ (canonical_relative_path platform request.manifest_path) λ canonical.
        Outcome.◌>>◌
          (require (anchor_format request.manifest_sha256) (
            manifest_error "detached manifest SHA-256 must be 64 lowercase hexadecimal characters"))
          (ok canonical))

-- `except ArtifactProofError as exc`: f"{type(exc).__name__}: {exc}"
abbrev pub caught : Exception → Option String
caught (manifest_error m) = some (append "ManifestError: " m)
caught (source_error m) = some (append "SourceError: " m)
caught (value_error m) = none
caught (zip_error m) = none
caught (action_rejected m) = none
caught (curriculum_error m) = none
caught (crash m) = none

abbrev pub contract_finding : String → Finding
contract_finding message = finding "artifact-contract" "contract" fail message none none

abbrev pub snapshot_finding : String → Finding
snapshot_finding digest =
    finding "source-snapshot" "consistency" pass
      "source remained stable through validation finalization" none (some (str digest))

module _ {S : Type 0} where
  -- A read of the source within the session.
  unfoldable pub on_source : {A : Type 0} → Exec S A → Exec (Session S) A
  on_source m t = let (r, s) = m t.source in (r, record t { source = s })

  -- findings.extend(new)
  unfoldable pub extend : List Finding → Exec (Session S) (Unit {0})
  extend new t = (ok tt, record t { findings = t.findings ++ new })

  unfoldable pub note_manifest : String → Exec (Session S) (Unit {0})
  note_manifest digest t = (ok tt, record t { manifest_sha256 = some digest })

  unfoldable pub note_artifact : Manifest → Exec (Session S) (Unit {0})
  note_artifact m t =
      (ok tt, record t { artifact_name = some m.name; artifact_version = some m.version })

  unfoldable pub note_snapshot : String → Exec (Session S) (Unit {0})
  note_snapshot digest t = (ok tt, record t { source_snapshot_sha256 = some digest })

  unfoldable pub report : Request → Session S → Report
  report request t = record {
    artifact = request.artifact;
    profile = request.profile;
    manifest_sha256 = t.manifest_sha256;
    artifact_name = t.artifact_name;
    artifact_version = t.artifact_version;
    findings = t.findings;
    source_snapshot_sha256 = t.source_snapshot_sha256;
  }

module _ {S : Type 0} (platform : Platform) (source : ArtifactSource S) where
  -- The loop over the declared checks.
  unfoldable pub run_checks : String → List CheckSpec → Exec (Session S) (Unit {0})
  unfolding on_source extend run_declared_check
  run_checks profile [] = pure tt
  run_checks profile (check ∷ checks) = do
    found ← on_source (run_declared_check platform source profile check)
    extend (found ∷ [])
    run_checks profile checks

  unfoldable pub cover : Manifest → String → Exec (Session S) (Unit {0})
  unfolding extend verify_coverage
  cover m canonical t = extend (verify_coverage (source.list_files t.source) m canonical ∷ []) t

  unfoldable pub hash_files : Manifest → String → Exec (Session S) (List Finding)
  unfolding on_source verify_file_hashes
  hash_files m profile t =
      on_source (verify_file_hashes platform source (source.list_files t.source) m profile) t

  -- The block under `with open_source(...) as source`, once the manifest is parsed.
  unfoldable pub inspect : Request → String → Bytes → Manifest → Exec (Session S) (Unit {0})
  unfolding cover hash_files run_checks note_artifact note_snapshot verify_manifest_anchor
  inspect request canonical bytes m = do
    note_artifact m
    extend (
        verify_manifest_anchor platform bytes request.manifest_sha256 request.require_trust_anchor
        ∷ [])
    cover m canonical
    hashes ← hash_files m request.profile
    extend hashes
    run_checks request.profile m.checks
    digest ← on_source source.finalize_snapshot
    note_snapshot digest
    extend (snapshot_finding digest ∷ [])

  unfoldable pub validate : Request → String → Exec (Session S) (Unit {0})
  unfolding inspect note_manifest parse_manifest
  validate request canonical = do
    bytes ← on_source (source.read_bytes canonical (some (1024 * 1024)))
    note_manifest (platform.sha256 bytes)
    m ← lift (parse_manifest platform canonical bytes)
    inspect request canonical bytes m

module _ {S : Type 0} where
  unfoldable pub finish : Request → Session S → Result (Unit {0}) → Result Report
  unfolding report extend
  finish request t (ok _) = ok (report request t)
  finish request t (raise e) = elim (caught e) [
    | none ↦ raise e
    | some message ↦ ok (report request (extend (contract_finding message ∷ []) t).1)
  ]

module _ {S : Type 0} (platform : Platform) (source : ArtifactSource S) where
  unfoldable pub run_opened : Request → String → Result S → Result Report
  unfolding validate finish
  run_opened request canonical (raise e) = finish request (start tt) (raise e)
  run_opened request canonical (ok s) =
      let (r, t) = validate platform source request canonical (start s) in finish request t r

  unfoldable pub run_prepared : Request → Result S → Result String → Result Report
  unfolding run_opened
  run_prepared request opened (raise e) = finish request (start tt) (raise e)
  run_prepared request opened (ok canonical) = run_opened request canonical opened

  -- An exception that is no ArtifactProofError leaves the function.
  unfoldable pub verify_artifact : Request → Result S → Result Report
  unfolding prepare run_prepared
  verify_artifact request opened = run_prepared request opened (prepare platform request)
