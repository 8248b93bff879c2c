-- ===== src/Checks/Identity.antt =====
-- `verify_manifest_anchor`, `verify_coverage` and `verify_file_hashes` of
-- src/artifact_proof/checks.py.
use Prim.Native.String.{compare, ◌++◌ as append}
use text.Mathlib.Text.{is_le}
use artifact_proof_lab.Base.{
  String, Bool, true, false, not, ◌&&◌, ◌||◌, Option, none, some, List, [], ◌∷◌, map, mem, sorted,
  length, ◌==◌, if◌then◌else◌,
}
use artifact_proof_lab.Base.Exec.{Exec, pure, ◌>>=◌}
use artifact_proof_lab.Json.{Json, Number, bool, str, arr, obj, items_of, fields_of}
use artifact_proof_lab.Model.{Status, pass, fail, warn, skip, Finding, number}
use artifact_proof_lab.Platform.{Platform, Bytes}
use artifact_proof_lab.Manifest.Types.{FileSpec, Manifest}
use artifact_proof_lab.Source.Interface.{ArtifactSource, sha256}

abbrev pub finding :
    String → String → Status → String → Option (Json Number) → Option (Json Number) → Finding
finding check_id check_type status message expected observed = record {
  check_id = check_id;
  check_type = check_type;
  status = status;
  message = message;
  expected = expected;
  observed = observed;
}

unfoldable pub verify_manifest_anchor : Platform → Bytes → Option String → Bool → Finding
verify_manifest_anchor platform manifest_bytes none require_anchor =
    finding "manifest-anchor" "trust_anchor" (if require_anchor then fail else warn)
      "no detached manifest SHA-256 was supplied" none (some (str (platform.sha256 manifest_bytes)))
verify_manifest_anchor platform manifest_bytes (some expected) require_anchor =
    let observed = platform.sha256 manifest_bytes in
    if expected == observed
    then finding "manifest-anchor" "trust_anchor" pass "detached manifest SHA-256 matches"
        (some (str expected)) (some (str observed))
    else finding "manifest-anchor" "trust_anchor" fail "detached manifest SHA-256 mismatch"
        (some (str expected)) (some (str observed))

-- set(xs) - set(ys)
unfoldable pub difference : List String → List String → List String
difference [] ys = []
difference (x ∷ xs) ys = let rest = difference xs ys in if mem x ys then rest else x ∷ rest

abbrev pub is_empty : List String → Bool
is_empty [] = true
is_empty (_ ∷ _) = false

abbrev pub paths : Manifest → List String
paths m = map (λ e. e.0) m.files

abbrev pub missing : List String → Manifest → List String
missing actual m = difference (paths m) actual

abbrev pub unlisted : List String → Manifest → String → List String
unlisted actual m manifest_path =
    difference (difference (difference actual (paths m)) (manifest_path ∷ [])) m.allow_unlisted

abbrev pub coverage_failed : List String → Manifest → String → Bool
coverage_failed actual m manifest_path =
    not (is_empty (missing actual m))
    || (m.complete_coverage && not (is_empty (unlisted actual m manifest_path)))

abbrev texts : List String → Json Number
texts xs = arr (items_of (map str xs))

-- `actual` is `source.list_files()`, whose names are distinct.
unfoldable pub verify_coverage : List String → Manifest → String → Finding
unfolding difference sorted
verify_coverage actual m manifest_path =
    let failed = coverage_failed actual m manifest_path in
    finding "file-coverage" "coverage" (if failed then fail else pass)
      (if failed then "artifact file coverage mismatch" else "artifact file coverage is complete")
      (some (
        obj (
          fields_of
            (("declared", number (length m.files)) ∷ ("complete", bool m.complete_coverage) ∷ []))))
      (some (
        obj (
          fields_of (
            ("actual", number (length actual))
            ∷ ("missing", texts (sorted (missing actual m)))
            ∷ ("unlisted", texts (sorted (unlisted actual m manifest_path)))
            ∷ []))))

-- sorted(manifest.files.items()): the paths are distinct, so they decide the order.
unfoldable pub insert_file : String × FileSpec → List (String × FileSpec) → List (String × FileSpec)
insert_file x [] = x ∷ []
insert_file x (y ∷ ys) =
    let rest = insert_file x ys in if is_le (compare x.0 y.0) then x ∷ y ∷ ys else y ∷ rest

unfoldable pub sorted_files : List (String × FileSpec) → List (String × FileSpec)
unfolding insert_file
sorted_files [] = []
sorted_files (x ∷ xs) = insert_file x (sorted_files xs)

-- f"sha256:{path}"
abbrev pub hash_id : String → String
hash_id path = append "sha256:" path

-- The finding on a file that is there, from the digest that was read.
unfoldable pub hash_finding : String → String × FileSpec → String → Finding
hash_finding profile (path, spec) observed =
    if profile == "live" && spec.mutable
    then finding (hash_id path) "sha256" skip "mutable file hash is not frozen in live profile"
        (some (str spec.sha256)) (some (str observed))
    else if observed == spec.sha256
    then finding (hash_id path) "sha256" pass "file SHA-256 matches" (some (str spec.sha256))
        (some (str observed))
    else finding (hash_id path) "sha256" fail "file SHA-256 mismatch" (some (str spec.sha256))
        (some (str observed))

module _ {S : Type 0} (platform : Platform) (source : ArtifactSource S) where
  -- The body of the loop.
  unfoldable pub check_hash : List String → String → String × FileSpec → Exec S Finding
  unfolding hash_finding
  check_hash actual profile (path, spec) =
      if mem path actual
      then (do
        observed ← sha256 platform source path
        pure (hash_finding profile (path, spec) observed))
      else pure (
          finding (hash_id path) "sha256" fail "declared file is missing" (some (str spec.sha256))
            none)

  unfoldable pub check_hashes :
      List String → String → List (String × FileSpec) → Exec S (List Finding)
  unfolding check_hash
  check_hashes actual profile [] = pure []
  check_hashes actual profile (file ∷ files) = do
    first ← check_hash actual profile file
    rest ← check_hashes actual profile files
    pure (first ∷ rest)

  unfoldable pub verify_file_hashes : List String → Manifest → String → Exec S (List Finding)
  unfolding check_hashes sorted_files
  verify_file_hashes actual m profile = check_hashes actual profile (sorted_files m.files)
