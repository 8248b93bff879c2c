-- ===== src/Source/Directory.antt =====
-- `DirectorySource` of src/artifact_proof/source.py over the answers of a `Disk`.
use Prim.Native.String.{compare}
use text.Mathlib.Text.{is_le}
use artifact_proof_lab.Base.{
  ℕ, zero, suc, ◌+◌, String, Bool, true, false, ◌&&◌, Option, none, some, List, [], ◌∷◌, map, all,
  sorted, length, ltb, eqb, ◌==◌, if◌then◌else◌,
}
use artifact_proof_lab.Base.Outcome.{
  source_error, crash, Result, ok, raise, require, reject, ◌>>=◌, ◌>>◌,
}
use artifact_proof_lab.Base.Exec.{Exec, pure, lift}
use artifact_proof_lab.Base.Exec
use artifact_proof_lab.Json.{str, obj, fields_of}
use artifact_proof_lab.Json.Dump.{dump, dump_int}
use artifact_proof_lab.Paths.{canonical_relative_path}
use artifact_proof_lab.Platform.{Platform, Bytes}
use artifact_proof_lab.Source.Interface.{ArtifactSource}
use artifact_proof_lab.Source.Limits.{SourceLimits, read_limit}
use artifact_proof_lab.Source.Disk.{Stat, is_regular, is_link, Entry, folder, file, Disk}

-- (st_dev, st_ino, st_size, st_mtime_ns)
pub record Identity : Type 0 where
  pub dev : ℕ
  pub ino : ℕ
  pub size : ℕ
  pub mtime : ℕ

abbrev pub identity : Stat → Identity
identity s = record { dev = s.st_dev; ino = s.st_ino; size = s.st_size; mtime = s.st_mtime_ns }

abbrev pub same_identity : Identity → Identity → Bool
same_identity a b = eqb a.dev b.dev && eqb a.ino b.ino && eqb a.size b.size && eqb a.mtime b.mtime

-- A dictionary in insertion order: `d.get(k)`, and `d[k] = v` for the inventory's distinct paths.
module _ {V : Type 0} where
  unfoldable pub lookup : String → List (String × V) → Option V
  lookup k [] = none
  lookup k ((j, v) ∷ m) = if j == k then some v else lookup k m

abbrev pub Snapshots : Type 0
Snapshots = List (String × Identity)

-- self._inventory() == self._snapshots: the same paths with the same identities.
abbrev has_entry : Snapshots → String × Identity → Bool
has_entry files (path, i) = elim (lookup path files) [ none ↦ false | some j ↦ same_identity i j ]

unfoldable pub same_snapshots : Snapshots → Snapshots → Bool
unfolding lookup
same_snapshots xs ys = eqb (length xs) (length ys) && all (has_entry ys) xs

module _ {ℓ} {A : Type ℓ} where
  unfoldable pub take : ℕ → List A → List A
  take zero xs = []
  take (suc n) [] = []
  take (suc n) (x ∷ xs) = x ∷ take n xs

-- The paths from the root down: each is there, and none is a symbolic link.
unfoldable pub check_parts : List (Option Stat) → Result (Unit {0})
check_parts [] = ok tt
check_parts (none ∷ parts) = raise (source_error "artifact file disappeared after inventory")
check_parts (some s ∷ parts) =
    reject (is_link s) (source_error "artifact path became a symlink after inventory")
    >> check_parts parts

-- What one read returns, by the answers to it.
unfoldable pub access_bytes : Identity → ℕ → Option (Stat × Bytes × Stat) → Result Bytes
unfolding take
access_bytes expected limit none = raise (source_error "artifact file cannot be opened safely")
access_bytes expected limit (some (before, content, after)) = do
  require (same_identity (identity before) expected && is_regular before)
      (source_error "artifact file changed after inventory")
  let bytes = take (limit + 1) content
  require (same_identity (identity after) (identity before))
      (source_error "artifact file changed while being read")
  reject (ltb limit (length bytes)) (source_error "file exceeds read limit")
  ok bytes

pub record Directory : Type 0 where
  pub snapshots : Snapshots
  -- _observed_digests
  pub observed : List (String × String)
  -- the calls of the operating system that were made
  pub calls : ℕ

-- f(sorted(...)) of a dictionary, by its keys.
insert_entry : String × String → List (String × String) → List (String × String)
insert_entry e [] = e ∷ []
insert_entry e (f ∷ fs) =
    let rest = insert_entry e fs in if is_le (compare e.0 f.0) then e ∷ f ∷ fs else f ∷ rest

sorted_entries : List (String × String) → List (String × String)
unfolding insert_entry
sorted_entries [] = []
sorted_entries (e ∷ es) = insert_entry e (sorted_entries es)

-- _snapshot_digest: the payload's keys stand in sorted order here.
unfoldable pub snapshot_digest : Platform → String → List (String × String) → String
unfolding sorted_entries dump
snapshot_digest platform kind digests = platform.sha256 (
    dump true dump_int (
      obj (
        fields_of (
          ("entries", obj (fields_of (map (λ e. (e.0, str e.1)) (sorted_entries digests))))
          ∷ ("format", str "artifact-source-snapshot-v1")
          ∷ ("kind", str kind)
          ∷ []))))

module _ (platform : Platform) (limits : SourceLimits) where
  abbrev present : Option Stat → Result Stat
  present none = raise (crash "FileNotFoundError")
  present (some s) = ok s

  -- The loops of `_inventory` over what `os.walk` lists.
  unfoldable pub collect : Snapshots → ℕ → List Entry → Result (Snapshots × ℕ)
  collect files total [] = ok (files, total)
  collect files total (folder relative link ∷ entries) =
      reject link (source_error "directory symlink is forbidden") >> collect files total entries
  collect files total (file relative lstat stat ∷ entries) = do
    _ ← canonical_relative_path platform relative
    mode ← present lstat
    require (is_regular mode) (source_error "non-regular file is forbidden")
    metadata ← present stat
    reject (ltb limits.max_file_bytes metadata.st_size) (source_error "file exceeds size limit")
    collect ((relative, identity metadata) ∷ files) (total + metadata.st_size) entries

  -- _inventory
  unfoldable pub take_inventory : List Entry → Result Snapshots
  unfolding collect
  take_inventory entries = do
    (files, total) ← collect [] 0 entries
    reject (ltb limits.max_entries (length files))
        (source_error "artifact exceeds entry-count limit")
    reject (ltb limits.max_total_bytes total) (source_error "artifact exceeds total-size limit")
    ok files

module _ (platform : Platform) (limits : SourceLimits) (disk : Disk) where
  -- __init__, for a root that is a folder.
  unfoldable pub open_directory : Result Directory
  unfolding take_inventory
  open_directory = do
    snapshots ← take_inventory platform limits (disk.walk 0)
    ok (record { snapshots = snapshots; observed = []; calls = 1 })

  -- self._observed_digests.setdefault(canonical, digest), and the comparison with what was there:
  -- the first digest of a path is kept, and a later one has to agree.
  unfoldable pub settle : String → Bytes → Option String → Exec Directory Bytes
  settle path bytes none s =
      (ok bytes, record s { observed = (path, platform.sha256 bytes) ∷ s.observed })
  settle path bytes (some previous) s =
      if previous == platform.sha256 bytes
      then (ok bytes, s)
      else (raise (source_error "artifact file changed across validation reads"), s)

  unfoldable pub observe : String → Result Bytes → Exec Directory Bytes
  unfolding lookup settle
  observe path (raise e) s = (raise e, s)
  observe path (ok bytes) s = settle path bytes (lookup path s.observed) s

  unfoldable pub read_known : String → Option ℕ → Option Identity → Exec Directory Bytes
  unfolding check_parts access_bytes observe read_limit
  read_known path max_bytes none s =
      (raise (source_error "artifact file was not present in the bounded inventory"), s)
  read_known path max_bytes (some expected) s =
      let answers = disk.access s.calls path in
      observe path
        (check_parts answers.parts
          >> access_bytes expected (read_limit limits max_bytes) answers.opened)
        (record s { calls = suc s.calls })

  unfoldable pub read_path : Option ℕ → Result String → Exec Directory Bytes
  unfolding read_known
  read_path max_bytes (raise e) s = (raise e, s)
  read_path max_bytes (ok path) s = read_known path max_bytes (lookup path s.snapshots) s

  unfoldable pub read_bytes : String → Option ℕ → Exec Directory Bytes
  unfolding read_path
  read_bytes relative max_bytes s =
      read_path max_bytes (canonical_relative_path platform relative) s

  -- One of the two inventories of `finalize_snapshot`, compared with the first one.
  unfoldable pub recheck : String → Exec Directory (Unit {0})
  unfolding take_inventory same_snapshots
  recheck message s = (
    (do
      files ← take_inventory platform limits (disk.walk s.calls)
      require (same_snapshots files s.snapshots) (source_error message)),
    record s { calls = suc s.calls },
  )

  unfoldable pub read_all : List String → Exec Directory (Unit {0})
  unfolding read_bytes
  read_all [] = pure tt
  read_all (path ∷ paths) = Exec.◌>>=◌ (read_bytes path none) λ _. read_all paths

  abbrev paths_of : Directory → List String
  paths_of s = sorted (map (λ e. e.0) s.snapshots)

  unfoldable pub digest_of : Exec Directory String
  unfolding snapshot_digest
  digest_of s = (ok (snapshot_digest platform "directory" s.observed), s)

  unfoldable pub read_inventory : Exec Directory (Unit {0})
  unfolding read_all
  read_inventory s = read_all (paths_of s) s

  unfoldable pub finalize_snapshot : Exec Directory String
  unfolding recheck read_inventory digest_of
  finalize_snapshot = Exec.◌>>=◌ (recheck "artifact directory changed during validation") λ _.
      Exec.◌>>=◌ read_inventory λ _.
        Exec.◌>>=◌ (recheck "artifact directory changed during snapshot finalization")
          λ _. digest_of

  -- The source that the checks read.
  abbrev pub directory_source : ArtifactSource Directory
  directory_source = record {
    list_files = λ s. sorted (map (λ e. e.0) s.snapshots);
    read_bytes = read_bytes;
    finalize_snapshot = finalize_snapshot;
  }
