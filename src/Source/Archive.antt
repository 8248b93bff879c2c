-- ===== src/Source/Archive.antt =====
-- `ZipSource` of src/artifact_proof/source.py: reads of members, and the digest of the container
-- at the start and at the end. What the system and `zipfile` answer may change at every call.
use artifact_proof_lab.Base.{
  ℕ, suc, ◌+◌, String, Bool, false, ◌&&◌, Option, none, some, List, [], ◌∷◌, sorted, length, ltb,
  ◌==◌,
}
use artifact_proof_lab.Base.Outcome.{source_error, Result, ok, raise, require, reject, ◌>>=◌, ◌>>◌}
use artifact_proof_lab.Paths.{canonical_relative_path}
use artifact_proof_lab.Platform.{Platform, Bytes, ZipInfo}
use artifact_proof_lab.Source.Interface.{ArtifactSource}
use artifact_proof_lab.Source.Limits.{SourceLimits, read_limit}
use artifact_proof_lab.Source.Disk.{Stat, is_regular}
use artifact_proof_lab.Source.Zip.{Members, names, inventory}
use artifact_proof_lab.Source.Directory.{Identity, identity, same_identity, lookup, snapshot_digest}

-- The container, as the system shows it.
pub record Container : Type 0 where
  -- zipfile.ZipFile(path).infolist(); none is BadZipFile
  pub entries : Option (List ZipInfo)
  -- fstat of the handle that `zipfile` holds; none if it holds none
  pub handle : Option Stat
  -- by the number of calls before: fstat, all the bytes, fstat; none is OSError on `open`
  pub hashed : ℕ → Option (Stat × Bytes × Stat)
  -- by the number of calls before: up to `limit` bytes of a member, or the exception
  pub member : ℕ → ZipInfo → ℕ → Result Bytes

pub record Archive : Type 0 where
  pub members : Members
  pub archive_metadata : Identity
  pub archive_sha256 : String
  pub calls : ℕ

module _ (platform : Platform) where
  -- _hash_regular_path
  unfoldable pub hash_regular_path : Option (Stat × Bytes × Stat) → Result (Identity × String)
  hash_regular_path none = raise (source_error "artifact ZIP cannot be opened safely")
  hash_regular_path (some (before, content, after)) = do
    require (is_regular before) (source_error "artifact ZIP is not a regular file")
    require (same_identity (identity after) (identity before))
        (source_error "artifact ZIP changed while being hashed")
    ok (identity before, platform.sha256 content)

abbrev same_handle : Option Stat → Identity → Bool
same_handle none metadata = false
same_handle (some opened) metadata = same_identity (identity opened) metadata

abbrev pub valid_zip : Option (List ZipInfo) → Result (List ZipInfo)
valid_zip none = raise (source_error "artifact is not a valid ZIP")
valid_zip (some infos) = ok infos

abbrev member_info : Option ZipInfo → Result ZipInfo
member_info none = raise (source_error "ZIP member is missing")
member_info (some info) = ok info

module _ (platform : Platform) (limits : SourceLimits) (container : Container) where
  -- __init__, for a path that is a file.
  unfoldable pub open_archive : Result Archive
  unfolding hash_regular_path inventory
  open_archive = do
    infos ← valid_zip container.entries
    (metadata, digest) ← hash_regular_path platform (container.hashed 0)
    require (same_handle container.handle metadata)
        (source_error "artifact ZIP changed while being opened")
    members ← inventory platform limits infos
    ok (record {
      members = members;
      archive_metadata = metadata;
      archive_sha256 = digest;
      calls = 1;
    })

  -- read_bytes and _bounded_read
  unfoldable pub read_member : String → Option ℕ → Archive → Result Bytes
  unfolding lookup read_limit
  read_member relative max_bytes archive = do
    canonical ← canonical_relative_path platform relative
    info ← member_info (lookup canonical archive.members)
    reject (ltb (read_limit limits max_bytes) info.file_size)
        (source_error "ZIP member exceeds read limit")
    content ← container.member archive.calls info (read_limit limits max_bytes + 1)
    reject (ltb (read_limit limits max_bytes) (length content))
        (source_error "decompressed data exceeds read limit")
    ok content

  abbrev unchanged : Archive → Identity × String → Bool
  unchanged archive (metadata, digest) =
      same_identity metadata archive.archive_metadata && digest == archive.archive_sha256

  -- finalize_snapshot
  unfoldable pub finalize_archive : Archive → Result String
  unfolding hash_regular_path snapshot_digest
  finalize_archive archive = do
    found ← hash_regular_path platform (container.hashed archive.calls)
    require (unchanged archive found) (source_error "artifact ZIP changed during validation")
    ok (snapshot_digest platform "zip" (("container", found.1) ∷ []))

  -- The source that the checks read.
  abbrev pub zip_source : ArtifactSource Archive
  zip_source = record {
    list_files = λ archive. sorted (names archive.members);
    read_bytes = λ relative max_bytes archive.
        (read_member relative max_bytes archive, record archive { calls = suc archive.calls });
    finalize_snapshot =
        λ archive. (finalize_archive archive, record archive { calls = suc archive.calls });
  }
