-- ===== src/Engine/Snapshot.antt =====
-- `verify_artifact` on a directory: a passing report and what was observed of the files.
use artifact_proof_lab.Base.{
  String, ◌≡◌, sym, ap, subst, ◌∙◌, true, false, ◌&&◌, some, All, Holds, Holds-sorted, map, ◌==◌,
}
use artifact_proof_lab.Base.Outcome.{ok}
use artifact_proof_lab.Platform.{Platform, Bytes}
use artifact_proof_lab.Model.{Report, passed}
use artifact_proof_lab.Manifest.Types.{Manifest}
use artifact_proof_lab.Paths.{canonical_relative_path}
use artifact_proof_lab.Manifest.Parse.{parse_manifest}
use artifact_proof_lab.Manifest.Fits.{IsWellFormed}
use artifact_proof_lab.Manifest.WellFormed.{parse_manifest-IsWellFormed}
use artifact_proof_lab.Source.Limits.{SourceLimits}
use artifact_proof_lab.Source.Disk.{Disk}
use artifact_proof_lab.Source.Directory.{
  Directory, open_directory, directory_source, lookup, snapshot_digest,
}
use artifact_proof_lab.Source.Reads.{Settled, finalize_snapshot-Settled}
use artifact_proof_lab.Source.Recorded.{directory_recorded}
use artifact_proof_lab.Engine.{Request, verify_artifact}
use artifact_proof_lab.Engine.Passing.{passed-Verified}

module _ (platform : Platform) (limits : SourceLimits) (disk : Disk) where
  -- What a passing report says of the directory that was opened as `s`.
  pub record Sealed (request : Request) (s : Directory) (r : Report) : Type 0 where
    pub canonical : String
    pub manifest_path : canonical_relative_path platform request.manifest_path ≡ ok canonical
    pub bytes : Bytes
    pub manifest : Manifest
    pub parsed : parse_manifest platform canonical bytes ≡ ok manifest
    pub well_formed : IsWellFormed platform canonical manifest
    -- the observations at the end
    pub last : Directory
    pub manifest_sha256 : r.manifest_sha256 ≡ some (platform.sha256 bytes)
    pub manifest_seen : lookup canonical last.observed ≡ some (platform.sha256 bytes)
    pub declared :
        All
          (λ file.
            (request.profile == "live" && file.1.mutable) ≡ false
            → lookup file.0 last.observed ≡ some file.1.sha256)
          manifest.files
    pub complete :
        (path : String)
        → Holds path ((directory_source platform limits disk).list_files s)
        → (d : String) × (lookup path last.observed ≡ some d)
    pub snapshot :
        r.source_snapshot_sha256 ≡ some (snapshot_digest platform "directory" last.observed)

  -- A report on a directory that passes comes with one set of observed digests that its snapshot
  -- digest seals: every file of the directory is among them, every declared file that is not
  -- exempt has its declared digest there, and the manifest, which is well formed, was parsed from
  -- bytes with the digest that the report gives and that was observed at the requested path.
  pub passed-Sealed :
      (request : Request) (r : Report)
      → verify_artifact platform
          (directory_source platform limits disk)
          request
          (open_directory platform limits disk)
        ≡ ok r
      → passed r ≡ true
      → (s : Directory) × (open_directory platform limits disk ≡ ok s) × Sealed request s r
  unfolding directory_recorded
  passed-Sealed request r h pass =
      let source = directory_source platform limits disk in
      let (s, opened, v) =
        passed-Verified platform source (directory_recorded platform limits disk) request
          (open_directory platform limits disk) r h pass in
      let (u, final, at_end) = v.finalized in
      let (kept, _, _, all_read, digest) =
        subst (Settled platform limits disk u v.snapshot) (sym at_end)
          (finalize_snapshot-Settled platform limits disk u v.snapshot final) in
      (
        s,
        opened,
        record {
          canonical = v.canonical;
          manifest_path = v.manifest_path;
          bytes = v.bytes;
          manifest = v.manifest;
          parsed = v.parsed;
          well_formed =
              parse_manifest-IsWellFormed platform v.canonical v.bytes v.manifest v.parsed;
          last = v.last;
          manifest_sha256 = v.manifest_sha256;
          manifest_seen = v.seen;
          declared = v.hashes;
          complete = λ path listed. all_read path (
              subst (λ files. Holds path (map (λ e. e.0) files)) kept
                ((Holds-sorted path (map (λ e. e.0) v.last.snapshots)).0
                  (subst (Holds path) (sym v.same_files) listed)));
          snapshot = v.source_snapshot_sha256 ∙ ap some digest;
        },
      )
