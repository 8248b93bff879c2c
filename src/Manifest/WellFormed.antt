-- ===== src/Manifest/WellFormed.antt =====
-- A manifest that `parse_manifest` accepts is well formed.
use artifact_proof_lab.Base.{
  String, ◌≡◌, refl, inl, inr, Option, some, List, [], ◌∷◌, map, All, Holds, Distinct, not-mem,
  fresh-apart, arith, eq_iff, Bool-cases,
}
use artifact_proof_lab.Base.Outcome.{
  Exception, manifest_error, ok, Ensures, holds, raised, Ensures-ok, Ensures-all, Ensures-bind,
  Ensures-reject, Ensures-traverse, Ensures-both,
}
use artifact_proof_lab.Json.{Json, Fields, Number, str, obj, end, field, get, keys, unique_value}
use artifact_proof_lab.Json.Unique.{unique_value-keys, unique_value-get}
use artifact_proof_lab.Paths.Portable.{IsPortable, canonical_relative_path-eq}
use artifact_proof_lab.Platform.{Platform, Bytes, Decoded, not_utf8, malformed, failed, tree}
use artifact_proof_lab.Manifest.Types.{FileSpec, CheckSpec, Manifest}
use artifact_proof_lab.Manifest.Shape.{object, path, is_sha256}
use artifact_proof_lab.Manifest.Parse.{
  decode_manifest, digest, parse_file, parse_files, parse_checks, parse_coverage, parse_root,
  parse_manifest,
}
use artifact_proof_lab.Manifest.Fits.{IsDigest, CheckFits, FileFits, paths, IsWellFormed}
use artifact_proof_lab.Manifest.ShapeLaws.{is_sha256-IsDigest, nonempty-Ensures, path-Ensures}
use artifact_proof_lab.Manifest.CheckLaws.{Ensures-any, check-Ensures}

module _ (platform : Platform) (manifest_path : String) where
  digest-Ensures : (v : Option (Json Number)) → Ensures IsDigest (digest v)
  digest-Ensures (some (str s)) = elim (Bool-cases (is_sha256 s)) [
    | inl e ↦ rw e (holds (is_sha256-IsDigest s e))
    | inr e ↦ rw e raised
  ]
  digest-Ensures _ = raised

  -- A file keeps the path that its key spells.
  path-same : (raw : String) → Ensures (λ p. p ≡ raw) (path platform (some (str raw)))
  unfolding path
  path-same raw = Ensures-all λ p h. ground (arith, canonical_relative_path-eq platform raw p)

  file-Ensures :
      (raw_path : String) (raw : Json Number)
      → Ensures
          (λ f. FileFits platform manifest_path f × (f.0 ≡ raw_path))
          (parse_file platform manifest_path raw_path raw)
  unfolding parse_file
  file-Ensures raw_path raw =
      Ensures-bind (Ensures-both (path-Ensures platform (some (str raw_path))) (path-same raw_path))
        λ p (fine, same). Ensures-bind (Ensures-reject _ _) λ _ other.
          Ensures-bind (Ensures-any _) λ spec _. Ensures-bind (Ensures-any _) λ _ _.
            Ensures-bind (digest-Ensures (get "sha256" spec)) λ sha256 hex.
              Ensures-bind (Ensures-any _) λ mutable _. holds (
                record {
                  portable = fine;
                  not_self = λ e. cc ((eq_iff p manifest_path).1 e, other);
                  digest = hex;
                },
                same,
              )

  files-Ensures :
      (fs : Fields Number)
      → Ensures
          (λ files. All (FileFits platform manifest_path) files × (paths files ≡ keys fs))
          (parse_files platform manifest_path fs)
  unfolding parse_files keys
  files-Ensures end = holds (tt, refl)
  files-Ensures (field raw_path raw fs) =
      Ensures-bind (file-Ensures raw_path raw) λ file (fits, same).
        Ensures-bind (files-Ensures fs) λ files (rest, names). holds ((fits, rest), cc)

  coverage-Ensures :
      (raw : Json Number)
      → Ensures (λ c. All (IsPortable platform) c.1) (parse_coverage platform raw)
  unfolding parse_coverage
  coverage-Ensures raw = Ensures-bind (Ensures-any _) λ _ _. Ensures-bind (Ensures-any _) λ _ _.
      Ensures-bind (Ensures-any _) λ _ _. Ensures-bind (Ensures-any _) λ items _.
        Ensures-bind (Ensures-any _) λ _ _.
          Ensures-bind (Ensures-traverse items (λ item. path-Ensures platform (some item)))
            λ _ fine. holds fine

  abbrev ids : List CheckSpec → List String
  ids checks = map (λ c. c.check_id) checks

  checks-Ensures :
      (files : List (String × FileSpec)) (seen : List String) (values : List (Json Number))
      → Ensures
          (λ cs.
            All (CheckFits platform (paths files)) cs
            × All (λ k. ¬ Holds k seen) (ids cs)
            × Distinct (ids cs))
          (parse_checks platform files seen values)
  unfolding parse_checks
  checks-Ensures files seen [] = holds (tt, tt, tt)
  checks-Ensures files seen (value ∷ values) =
      Ensures-bind (check-Ensures platform files value) λ check fits.
        Ensures-bind (Ensures-reject _ _) λ _ new.
          Ensures-bind (checks-Ensures files (check.check_id ∷ seen) values)
            λ checks (rest, fresh, distinct).
              let (apart, older) = fresh-apart check.check_id seen (ids checks) fresh in
              holds ((fits, rest), (not-mem check.check_id seen new, older), (apart, distinct))

  object-same : (v : Option (Json Number)) → Ensures (λ fs. v ≡ some (obj fs)) (object v)
  unfolding object
  object-same (some (obj fs)) = holds refl
  object-same _ = raised

  root-Ensures :
      (e : Exception) (raw : Json Number)
      → unique_value e raw ≡ ok tt
      → Ensures (IsWellFormed platform manifest_path) (parse_root platform manifest_path raw)
  unfolding parse_root
  root-Ensures e raw unique = Ensures-bind (object-same _) λ root whole.
      Ensures-bind (Ensures-any _) λ _ _. Ensures-bind (Ensures-any _) λ _ _.
        Ensures-bind (Ensures-any _) λ artifact _. Ensures-bind (Ensures-any _) λ _ _.
          Ensures-bind (nonempty-Ensures _) λ name named.
            Ensures-bind (nonempty-Ensures _) λ version versioned.
              Ensures-bind (object-same _) λ files_raw there.
                Ensures-bind (files-Ensures files_raw) λ files (fits, names).
                  Ensures-bind (coverage-Ensures _) λ coverage allowed.
                    Ensures-bind (Ensures-any _) λ checks_raw _.
                      Ensures-bind (checks-Ensures files [] checks_raw)
                        λ checks (checked, _, distinct). holds (record {
                          named = named;
                          versioned = versioned;
                          files = fits;
                          distinct_files = rw names (distinct_keys root files_raw whole there);
                          allowed = allowed;
                          checks = checked;
                          distinct_checks = distinct;
                        })
    where
      distinct_keys :
          (root files_raw : Fields Number)
          → some raw ≡ some (obj root)
          → get "files" root ≡ some (obj files_raw)
          → Distinct (keys files_raw)
      distinct_keys root files_raw whole there =
          unique_value-keys e files_raw (unique_value-get e "files" root (ground arith) there)

decode_manifest_unique :
    (d : Decoded Number)
    → Ensures
        (λ v. unique_value (manifest_error "invalid manifest JSON") v ≡ ok tt)
        (decode_manifest d)
unfolding decode_manifest
decode_manifest_unique (tree v) =
    Ensures-bind (Ensures-all {P = λ u. unique_value _ v ≡ ok tt} (λ u e. e)) λ _ e. holds e
decode_manifest_unique not_utf8 = raised
decode_manifest_unique malformed = raised
decode_manifest_unique (failed m) = raised

-- A manifest that the parser accepts is well formed: its name and version are filled; every file
-- has a portable path, which is not the manifest's own, and 64 lowercase hexadecimal digits; no
-- path and no check identifier occurs twice; the allowed unlisted files are portable paths; and
-- every check has a filled identifier, at least one profile, all of them supported, and names
-- declared files only, with valid JSON Pointers and at least two operands in a value binding.
pub parse_manifest-IsWellFormed :
    (platform : Platform) (manifest_path : String) (bytes : Bytes) (m : Manifest)
    → parse_manifest platform manifest_path bytes ≡ ok m
    → IsWellFormed platform manifest_path m
unfolding parse_manifest
parse_manifest-IsWellFormed platform manifest_path bytes m h =
    Ensures-ok
      (Ensures-bind (Ensures-any _) λ _ _.
        Ensures-bind (decode_manifest_unique (platform.loads bytes))
          λ raw unique. root-Ensures platform manifest_path _ raw unique)
      h
