-- ===== src/Samples/Sources.antt =====
-- The sample artifact's directory and a sample archive, read.
use artifact_proof_lab.Base.{
  ℕ, ◌*◌, ◌^◌, ◌≤◌, String, ◌≡◌, ◌↔◌, refl, ap, none, some, List, [], ◌∷◌, length, reverse_onto,
  sorted,
}
use artifact_proof_lab.Base.Outcome
use artifact_proof_lab.Base.Exec
use artifact_proof_lab.Base.Outcome.{Result, ok}
use artifact_proof_lab.Paths.{canonical_relative_path}
use artifact_proof_lab.Paths.Split.{split, join}
use artifact_proof_lab.Paths.Portable.{IsPortable, canonical_relative_path_iff}
use artifact_proof_lab.Paths.Confined.{walk, canonical_relative_path-confined}
use artifact_proof_lab.Json.Dump.{dump_string}
use artifact_proof_lab.Platform.{Bytes, ZipInfo}
use artifact_proof_lab.Source.Limits.{default_limits}
use artifact_proof_lab.Source.Disk.{is_regular, is_link}
use artifact_proof_lab.Source.Directory.{
  Directory, identity, read_bytes, finalize_snapshot, snapshot_digest,
}
use artifact_proof_lab.Source.Reads.{now, reads_agree, Settled, finalize_snapshot-Settled}
use artifact_proof_lab.Source.Archive.{Container, Archive, open_archive, finalize_archive}
use artifact_proof_lab.Source.ArchiveLaws.{IsListing, ReadAs, finalize_archive-agrees}
use artifact_proof_lab.Source.Zip.{Members, inventory}
use artifact_proof_lab.Source.ZipLaws.{IsInventory, inventory-IsInventory, entries, total_size}
use artifact_proof_lab.Samples.{platform, disk, stat_of, data_digest, other_digest}

abbrev list_path : String
list_path = "data/list.json"

abbrev opened : Directory
opened = record {
  snapshots =
      (list_path, identity (stat_of 12 3)) ∷ ("ARTIFACT_PROOF.json", identity (stat_of 11 2)) ∷ [];
  observed = [];
  calls = 1;
}

abbrev bytes : Bytes
bytes = 1 ∷ 2 ∷ 3 ∷ []

abbrev after_read : Directory
after_read = record opened { observed = (list_path, data_digest) ∷ []; calls = 2 }

first_read : read_bytes platform default_limits disk list_path none opened ≡ (ok bytes, after_read)
unfolding read_bytes canonical_relative_path split join Outcome.◌>>=◌ is_regular is_link
first_read = refl

second_read :
    (read_bytes platform default_limits disk list_path
      (some 9)
      (read_bytes platform default_limits disk list_path none opened).1).0
    ≡ ok bytes
unfolding read_bytes canonical_relative_path split join Outcome.◌>>=◌ is_regular is_link
second_read = refl

reads_agree_example : platform.sha256 bytes ≡ platform.sha256 bytes
reads_agree_example =
    reads_agree platform default_limits disk list_path none (some 9) opened
      (read_bytes platform default_limits disk list_path none opened).1 bytes bytes
      (ap (λ e. e.0) first_read) now second_read

abbrev final_digest : String
final_digest = other_digest

finalized_ok : (finalize_snapshot platform default_limits disk opened).0 ≡ ok final_digest
unfolding finalize_snapshot read_bytes canonical_relative_path split join Outcome.◌>>=◌ Exec.◌>>=◌
    is_regular is_link sorted dump_string
finalized_ok = refl

finalize_snapshot-Settled_example :
    Settled platform default_limits disk opened final_digest
      (finalize_snapshot platform default_limits disk opened).1
finalize_snapshot-Settled_example =
    finalize_snapshot-Settled platform default_limits disk opened final_digest finalized_ok

abbrev zip_info : String → ℕ → ZipInfo
zip_info name size = record {
  filename = name;
  external_attr = 0o100644 * 2 ^ 16;
  flag_bits = 0;
  file_size = size;
  compress_size = size;
}

abbrev archive : List ZipInfo
archive = zip_info "data/" 0 ∷ zip_info "data/a.txt" 5 ∷ zip_info "b.txt" 3 ∷ []

abbrev archived : Members
archived = ("b.txt", zip_info "b.txt" 3) ∷ ("data/a.txt", zip_info "data/a.txt" 5) ∷ []

archive_accepted : inventory platform default_limits archive ≡ ok archived
unfolding inventory canonical_relative_path split join Outcome.◌>>=◌
archive_accepted = refl

inventory-IsInventory_example :
    IsInventory platform default_limits archived
    × (archived ≡ reverse_onto (entries archive) [])
    × (length archive ≤ 4096)
    × (total_size archived ≤ 268435456)
inventory-IsInventory_example =
    inventory-IsInventory platform default_limits archive archived archive_accepted

canonical_relative_path_iff_example :
    (canonical_relative_path platform list_path ≡ ok list_path) ↔ IsPortable platform list_path
canonical_relative_path_iff_example = canonical_relative_path_iff platform list_path

list_path_accepted : canonical_relative_path platform list_path ≡ ok list_path
unfolding canonical_relative_path split join Outcome.◌>>=◌
list_path_accepted = refl

canonical_relative_path-confined_example :
    walk ("root" ∷ []) (split list_path) ≡ some (reverse_onto (split list_path) ("root" ∷ []))
canonical_relative_path-confined_example =
    canonical_relative_path-confined platform list_path list_path ("root" ∷ []) list_path_accepted

abbrev container : Container
container = record {
  entries = some archive;
  handle = some (stat_of 20 2);
  hashed = λ n. some (stat_of 20 2, 7 ∷ 8 ∷ [], stat_of 20 2);
  member = λ n info limit. ok (1 ∷ 2 ∷ 3 ∷ []);
}

abbrev opened_archive : Archive
opened_archive = record {
  members = archived;
  archive_metadata = identity (stat_of 20 2);
  archive_sha256 = other_digest;
  calls = 1;
}

archive_opens : open_archive platform default_limits container ≡ ok opened_archive
unfolding open_archive inventory canonical_relative_path split join Outcome.◌>>=◌ is_regular
archive_opens = refl

archive_finalizes :
    finalize_archive platform default_limits container (record opened_archive { calls = 5 })
    ≡ ok other_digest
unfolding finalize_archive Outcome.◌>>=◌ is_regular dump_string
archive_finalizes = refl

finalize_archive-agrees_example :
    (first : Bytes) × (last : Bytes) × ReadAs container 0 first
    × ReadAs container 5 last
    × (platform.sha256 first ≡ platform.sha256 last)
    × (other_digest ≡ snapshot_digest platform "zip" (("container", platform.sha256 first) ∷ []))
    × ((infos : List ZipInfo) × (container.entries ≡ some infos)
        × IsListing platform default_limits infos archived)
finalize_archive-agrees_example =
    finalize_archive-agrees platform default_limits container opened_archive 5 other_digest
      archive_opens archive_finalizes
