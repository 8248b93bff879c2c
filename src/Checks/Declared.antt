-- ===== src/Checks/Declared.antt =====
-- `run_declared_check`, `_sqlite_integrity`, `_zip_member_matches` and `_environment` of
-- src/artifact_proof/checks.py.
use Prim.Native.Nat.{bit_and}
use artifact_proof_lab.Base.{
  ℕ, ◌+◌, ◌*◌, String, Bool, true, false, not, ◌&&◌, ◌||◌, Option, none, some, List, [], ◌∷◌, map,
  all, mem, length, eqb, ltb, ◌==◌, if◌then◌else◌,
}
use artifact_proof_lab.Base.Outcome.{
  Exception, source_error, zip_error, Result, ok, raise, reject, require,
}
use artifact_proof_lab.Base.Outcome
use artifact_proof_lab.Base.Exec.{Exec, pure, lift, ◌>>=◌, try_except}
use artifact_proof_lab.Json.{Json, Number, str, arr, obj, items_of, fields_of}
use artifact_proof_lab.Model.{pass, fail, warn, skip, Finding, number}
use artifact_proof_lab.Paths.{canonical_relative_path}
use artifact_proof_lab.Platform.{Platform, Bytes, ZipInfo}
use artifact_proof_lab.Manifest.Types.{
  Mode, quick, full, ZipMember, Environment, Config, sqlite_integrity, zip_member_matches,
  value_binding, environment, check_type, CheckSpec,
}
use artifact_proof_lab.Source.Interface.{ArtifactSource, sha256}
use artifact_proof_lab.Source.Zip.{is_dir, raw_name, file_type, link_type, regular_type}
use artifact_proof_lab.Checks.Identity.{finding}
use artifact_proof_lab.Checks.Binding.{check_value_binding}

-- 64 * 1024 * 1024
abbrev pub nested_limit : ℕ
nested_limit = 64 * 1024 * 1024

module _ (platform : Platform) where
  abbrev sqlite_rows : Mode → Bytes → Option (List String)
  sqlite_rows quick bytes = platform.sqlite_quick bytes
  sqlite_rows full bytes = platform.sqlite_full bytes

  abbrev is_ok : List String → Bool
  is_ok (row ∷ []) = row == "ok"
  is_ok _ = false

  -- The finding on the rows of the integrity pragma.
  unfoldable pub sqlite_finding : String → Option (List String) → Finding
  sqlite_finding check_id none =
      finding check_id "sqlite_integrity" fail "SQLite inspection failed" none none
  sqlite_finding check_id (some rows) =
      finding check_id "sqlite_integrity" (if is_ok rows then pass else fail)
        (if is_ok rows then "SQLite integrity passed" else "SQLite integrity failed")
        (some (arr (items_of (str "ok" ∷ [])))) (some (arr (items_of (map str rows))))

  -- `except (sqlite3.DatabaseError, SourceError)`
  unfoldable pub sqlite_failed : String → Exception → Result Finding
  sqlite_failed check_id (source_error m) = ok (sqlite_finding check_id none)
  sqlite_failed check_id e = raise e

  abbrev pub Nested : Type 0
  Nested = List (String × ZipInfo)

  abbrev nested_names : Nested → List String
  nested_names files = map (λ e. e.0) files

  unfoldable pub check_nested : Nested → ZipInfo → Result (Unit {0})
  unfolding raw_name file_type
  check_nested files info =
      Outcome.◌>>◌
        (reject (mem (raw_name info) (nested_names files))
          (source_error "duplicate nested ZIP member"))
        (Outcome.◌>>◌
          (reject (eqb (file_type info) link_type) (source_error "nested ZIP symlink is forbidden"))
          (Outcome.◌>>◌
            (require (eqb (file_type info) 0 || eqb (file_type info) regular_type)
              (source_error "non-regular nested ZIP member is forbidden"))
            (Outcome.◌>>◌
              (reject (eqb (bit_and info.flag_bits 1) 1)
                (source_error "encrypted nested ZIP member is unsupported"))
              (reject (ltb nested_limit info.file_size)
                (source_error "nested ZIP member exceeds size limit")))))

  unfoldable pub scan_nested : Nested → List ZipInfo → Result Nested
  unfolding is_dir raw_name check_nested
  scan_nested files [] = ok files
  scan_nested files (info ∷ infos) =
      let skip = scan_nested files infos in
      Outcome.◌>>=◌ (canonical_relative_path platform (raw_name info)) λ _.
        if is_dir info
        then skip
        else Outcome.◌>>=◌ (check_nested files info)
            λ _. scan_nested ((raw_name info, info) ∷ files) infos

  unfoldable pub find_member : String → Nested → Option ZipInfo
  find_member m [] = none
  find_member m ((n, info) ∷ files) = if n == m then some info else find_member m files

  abbrev entries_of : Option (List ZipInfo) → Result (List ZipInfo)
  entries_of none = raise (zip_error "BadZipFile")
  entries_of (some infos) = ok infos

  abbrev member_of : Option ZipInfo → Result ZipInfo
  member_of none = raise (source_error "nested ZIP member is missing")
  member_of (some info) = ok info

  -- The digest of the selected member of the nested archive.
  unfoldable pub nested_digest : ZipMember → Bytes → Result String
  unfolding scan_nested find_member
  nested_digest config bytes = Outcome.◌>>=◌ (entries_of (platform.zip_entries bytes)) λ infos.
      Outcome.◌>>=◌ (scan_nested [] infos) λ files.
        Outcome.◌>>=◌ (member_of (find_member config.member files)) λ info.
          Outcome.◌>>=◌
            (reject (config.only_member && not (all (λ n. n == config.member) (nested_names files)))
              (source_error "nested ZIP must contain only"))
            λ _. Outcome.◌>>=◌ (platform.zip_read bytes info (nested_limit + 1)) λ content.
              Outcome.◌>>=◌
                (reject (ltb nested_limit (length content))
                  (source_error "nested ZIP member exceeds read limit"))
                λ _. ok (platform.sha256 content)

  unfoldable pub zip_member_finding : String → String → String → Finding
  zip_member_finding check_id target_digest observed =
      let passed = observed == target_digest in
      finding check_id "zip_member_matches" (if passed then pass else fail)
        (if passed
          then "nested ZIP member matches target"
          else "nested ZIP member differs from target")
        (some (str target_digest)) (some (str observed))

  -- `except (zipfile.BadZipFile, SourceError, KeyError, RuntimeError)`
  unfoldable pub zip_member_failed : String → Exception → Result Finding
  zip_member_failed check_id (source_error m) =
      ok (finding check_id "zip_member_matches" fail "nested ZIP inspection failed" none none)
  zip_member_failed check_id (zip_error m) =
      ok (finding check_id "zip_member_matches" fail "nested ZIP inspection failed" none none)
  zip_member_failed check_id e = raise e

  abbrev machine_entry : Option String → String → List (String × Json Number)
  machine_entry none m = []
  machine_entry (some _) m = ("platform_machine", str m) ∷ []

  abbrev environment_value : String → ℕ → ℕ → String → List (String × Json Number) → Json Number
  environment_value implementation major minor system machine = obj (
      fields_of (
        ("python_implementation", str implementation)
        ∷ ("python_major_minor", arr (items_of (number major ∷ number minor ∷ [])))
        ∷ ("platform_system", str system)
        ∷ machine))

  abbrev pub machine_matches : Option String → Bool
  machine_matches none = true
  machine_matches (some m) = m == platform.platform_machine

  -- expected == observed
  unfoldable pub environment_matches : Environment → Bool
  environment_matches e =
      e.python_implementation == platform.python_implementation
      && eqb e.python_major platform.python_major
      && eqb e.python_minor platform.python_minor
      && e.platform_system == platform.platform_system
      && machine_matches e.platform_machine

  unfoldable pub environment_finding : String → Environment → Finding
  unfolding environment_matches
  environment_finding check_id e =
      let expected =
        environment_value e.python_implementation e.python_major e.python_minor e.platform_system
          (elim e.platform_machine [ none ↦ [] | some m ↦ ("platform_machine", str m) ∷ [] ]) in
      let observed =
        environment_value platform.python_implementation platform.python_major platform.python_minor
          platform.platform_system (machine_entry e.platform_machine platform.platform_machine) in
      if environment_matches e
      then finding check_id "environment" pass "execution environment matches reference"
          (some expected) (some observed)
      else if e.enforce
      then finding check_id "environment" fail "execution environment violates enforced contract"
          (some expected) (some observed)
      else finding check_id "environment" warn
          "execution environment differs from non-binding reference" (some expected) (some observed)

module _ {S : Type 0} (platform : Platform) (source : ArtifactSource S) where
  unfoldable pub check_sqlite : String → String → Mode → Exec S Finding
  unfolding sqlite_finding sqlite_failed
  check_sqlite check_id path mode =
      try_except
        (do
          bytes ← source.read_bytes path none
          pure (sqlite_finding platform check_id (sqlite_rows platform mode bytes)))
        (sqlite_failed platform check_id)

  unfoldable pub check_zip_member : String → ZipMember → Exec S Finding
  unfolding sha256 nested_digest zip_member_finding zip_member_failed
  check_zip_member check_id config =
      try_except
        (do
          archive ← source.read_bytes config.archive (some nested_limit)
          target_digest ← sha256 platform source config.target
          observed ← lift (nested_digest platform config archive)
          pure (zip_member_finding platform check_id target_digest observed))
        (zip_member_failed platform check_id)

  -- The dispatch on the check's type.
  unfoldable pub run_config : String → Config → Exec S Finding
  unfolding check_sqlite check_zip_member environment_finding check_value_binding
  run_config check_id (sqlite_integrity path mode) = check_sqlite check_id path mode
  run_config check_id (zip_member_matches config) = check_zip_member check_id config
  run_config check_id (environment e) = pure (environment_finding platform check_id e)
  run_config check_id (value_binding operands) =
      check_value_binding platform source check_id operands

  unfoldable pub run_declared_check : String → CheckSpec → Exec S Finding
  unfolding check_type run_config
  run_declared_check profile check =
      if mem profile check.profiles
      then run_config check.check_id check.config
      else pure (
          finding check.check_id (check_type check.config) skip "check is inactive for profile" none
            none)
