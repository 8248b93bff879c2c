-- ===== src/Manifest/Parse.antt =====
-- `parse_manifest` of src/artifact_proof/manifest.py.
use artifact_proof_lab.Base.{
  mem, String, Bool, true, false, Option, some, List, [], ◌∷◌, ◌*◌, length, ltb, all, ◌==◌,
  if◌then◌else◌,
}
use artifact_proof_lab.Base.Outcome.{
  manifest_error, crash, Result, ok, raise, require, reject, ◌>>=◌, ◌>>◌, traverse,
}
use artifact_proof_lab.Json.{
  Json, Fields, Number, bool, str, arr, obj, end, field, nil, get, elements, unique_value,
}
use artifact_proof_lab.Platform.{Platform, Bytes, Decoded, not_utf8, malformed, failed, tree}
use artifact_proof_lab.Manifest.Types.{FileSpec, CheckSpec, Manifest}
use artifact_proof_lab.Manifest.Shape.{object, only_keys, nonempty, is_sha256, path}
use artifact_proof_lab.Manifest.Check.{flag, or_default, parse_check}

-- The decoded text, its hook `_unique_object` included.
unfoldable pub decode_manifest : Decoded Number → Result (Json Number)
unfolding unique_value
decode_manifest not_utf8 = raise (manifest_error "manifest must be UTF-8")
decode_manifest malformed = raise (manifest_error "invalid manifest JSON")
decode_manifest (failed m) = raise (crash m)
decode_manifest (tree v) = do unique_value (manifest_error "invalid manifest JSON") v; ok v

abbrev pub digest : Option (Json Number) → Result String
digest (some (str s)) = if is_sha256 s then ok s else raise (manifest_error "invalid SHA-256")
digest _ = raise (manifest_error "invalid SHA-256")

abbrev boolean : Json Number → Result Bool
boolean (bool b) = ok b
boolean _ = raise (manifest_error "must be boolean")

abbrev list : Json Number → Result (List (Json Number))
list (arr vs) = ok (elements vs)
list _ = raise (manifest_error "must be a list")

abbrev is_text : Json Number → Bool
is_text (str _) = true
is_text _ = false

-- root.get("format") == FORMAT
abbrev is_format : Option (Json Number) → Bool
is_format (some (str s)) = s == "artifact-proof-manifest-v1"
is_format _ = false

module _ (platform : Platform) where
  -- The body of the loop over `files_raw.items()`.
  unfoldable pub parse_file : String → String → Json Number → Result (String × FileSpec)
  unfolding path is_sha256
  parse_file manifest_path raw_path raw_spec = do
    p ← path platform (some (str raw_path))
    reject (p == manifest_path) (manifest_error "manifest cannot hash itself")
    spec ← object (some raw_spec)
    only_keys spec ("sha256" ∷ "mutable" ∷ [])
    sha256 ← digest (get "sha256" spec)
    mutable ← flag (get "mutable" spec)
    ok (p, record { sha256 = sha256; mutable = mutable })

  unfoldable pub parse_files : String → Fields Number → Result (List (String × FileSpec))
  unfolding parse_file
  parse_files manifest_path end = ok []
  parse_files manifest_path (field raw_path raw_spec fs) = do
    file ← parse_file manifest_path raw_path raw_spec
    files ← parse_files manifest_path fs
    ok (file ∷ files)

  -- The loop over `checks_raw`, with the identifiers that were met.
  unfoldable pub parse_checks :
      List (String × FileSpec) → List String → List (Json Number) → Result (List CheckSpec)
  unfolding parse_check
  parse_checks files ids [] = ok []
  parse_checks files ids (value ∷ values) = do
    check ← parse_check platform files value
    reject (mem check.check_id ids) (manifest_error "duplicate check id")
    checks ← parse_checks files (check.check_id ∷ ids) values
    ok (check ∷ checks)

  -- `root`'s coverage: whether it is complete, and the unlisted files that it allows.
  unfoldable pub parse_coverage : Json Number → Result (Bool × List String)
  unfolding path
  parse_coverage raw = do
    coverage ← object (some raw)
    only_keys coverage ("complete" ∷ "allow_unlisted" ∷ [])
    complete ← boolean (or_default (get "complete" coverage) (bool true))
    allow_raw ← list (or_default (get "allow_unlisted" coverage) (arr nil))
    require (all is_text allow_raw) (manifest_error "must be a string list")
    allow ← traverse (λ item. path platform (some item)) allow_raw
    ok (complete, allow)

  unfoldable pub parse_root : String → Json Number → Result Manifest
  unfolding parse_files parse_coverage parse_checks
  parse_root manifest_path raw = do
    root ← object (some raw)
    only_keys root ("format" ∷ "artifact" ∷ "files" ∷ "checks" ∷ "coverage" ∷ [])
    require (is_format (get "format" root)) (manifest_error "unsupported manifest format")
    artifact ← object (get "artifact" root)
    only_keys artifact ("name" ∷ "version" ∷ [])
    name ← nonempty (get "name" artifact)
    version ← nonempty (get "version" artifact)
    files_raw ← object (get "files" root)
    files ← parse_files manifest_path files_raw
    (complete, allow) ← parse_coverage (or_default (get "coverage" root) (obj end))
    checks_raw ← list (or_default (get "checks" root) (arr nil))
    checks ← parse_checks files [] checks_raw
    ok (record {
      name = name;
      version = version;
      files = files;
      checks = checks;
      complete_coverage = complete;
      allow_unlisted = allow;
    })

  unfoldable pub parse_manifest : String → Bytes → Result Manifest
  unfolding decode_manifest parse_root
  parse_manifest manifest_path bytes = do
    reject (ltb (1024 * 1024) (length bytes)) (manifest_error "manifest exceeds 1 MiB")
    raw ← decode_manifest (platform.loads bytes)
    parse_root manifest_path raw
