-- ===== src/Checks/Lasting.antt =====
-- What lasts in a source lasts through every check of it.
use artifact_proof_lab.Base.{String, Bool-cases, Option-cases, none, List, [], ◌∷◌, inl, inr, mem}
use artifact_proof_lab.Base.Exec.{Keeps, Keeps-bind, Keeps-pure, Keeps-lift, Keeps-try}
use artifact_proof_lab.Platform.{Platform}
use artifact_proof_lab.Manifest.Types.{
  FileSpec, Mode, ZipMember, Operand, json_pointer, file_sha256, Config, sqlite_integrity,
  zip_member_matches, value_binding, environment, CheckSpec, Manifest,
}
use artifact_proof_lab.Source.Interface.{ArtifactSource, sha256}
use artifact_proof_lab.Source.Recorded.{Lasts}
use artifact_proof_lab.Checks.Identity.{check_hash, check_hashes, sorted_files, verify_file_hashes}
use artifact_proof_lab.Checks.Binding.{
  Documents, find_document, read_strict_json, load_document, bind_operand, bind_operands,
  check_value_binding,
}
use artifact_proof_lab.Checks.Declared.{
  check_sqlite, check_zip_member, run_config, run_declared_check,
}

module _ {S : Type 0} {P : S → Type 0} (platform : Platform) (source : ArtifactSource S)
    (lasts : Lasts source P) where
  pub sha256-Keeps : (path : String) → Keeps P (sha256 platform source path)
  unfolding sha256
  sha256-Keeps path = Keeps-bind _ _ (lasts.read path none) λ bytes. Keeps-pure _

  pub check_hash-Keeps :
      (actual : List String) (profile : String) (file : String × FileSpec)
      → Keeps P (check_hash platform source actual profile file)
  unfolding check_hash
  check_hash-Keeps actual profile (path, spec) = elim (Bool-cases (mem path actual)) [
    | inl there ↦ rw there (Keeps-bind _ _ (sha256-Keeps path) λ observed. Keeps-pure _)
    | inr lost ↦ rw lost (Keeps-pure _)
  ]

  pub check_hashes-Keeps :
      (actual : List String) (profile : String) (files : List (String × FileSpec))
      → Keeps P (check_hashes platform source actual profile files)
  unfolding check_hashes
  check_hashes-Keeps actual profile [] = Keeps-pure []
  check_hashes-Keeps actual profile (file ∷ files) =
      Keeps-bind _ _ (check_hash-Keeps actual profile file)
        λ first. Keeps-bind _ _ (check_hashes-Keeps actual profile files) λ rest. Keeps-pure _

  pub verify_file_hashes-Keeps :
      (actual : List String) (m : Manifest) (profile : String)
      → Keeps P (verify_file_hashes platform source actual m profile)
  unfolding verify_file_hashes
  verify_file_hashes-Keeps actual m profile = record {
    after = (check_hashes-Keeps actual profile (sorted_files m.files)).after;
  }

  read_strict_json-Keeps : (path : String) → Keeps P (read_strict_json platform source path)
  unfolding read_strict_json
  read_strict_json-Keeps path = Keeps-bind _ _ (lasts.read path none) λ bytes. Keeps-lift _

  load_document-Keeps :
      (documents : Documents) (path : String)
      → Keeps P (load_document platform source documents path)
  unfolding load_document
  load_document-Keeps documents path = elim (Option-cases (find_document path documents)) [
    | inr (v, found) ↦ rw (found, load_document) (Keeps-pure _)
    | inl new ↦
        rw (new, load_document) (Keeps-bind _ _ (read_strict_json-Keeps path) λ v. Keeps-pure _)
  ]

  bind_operand-Keeps :
      (documents : Documents) (operand : Operand)
      → Keeps P (bind_operand platform source documents operand)
  unfolding bind_operand
  bind_operand-Keeps documents (file_sha256 path) =
      Keeps-bind _ _ (sha256-Keeps path) λ digest. Keeps-pure _
  bind_operand-Keeps documents (json_pointer path pointer) =
      Keeps-bind _ _ (load_document-Keeps documents path)
        λ loaded. Keeps-bind _ _ (Keeps-lift _) λ value. Keeps-pure _

  bind_operands-Keeps :
      (documents : Documents) (operands : List Operand)
      → Keeps P (bind_operands platform source documents operands)
  unfolding bind_operands
  bind_operands-Keeps documents [] = Keeps-pure []
  bind_operands-Keeps documents (operand ∷ operands) =
      Keeps-bind _ _ (bind_operand-Keeps documents operand)
        λ bound. Keeps-bind _ _ (bind_operands-Keeps bound.1 operands) λ rest. Keeps-pure _

  check_value_binding-Keeps :
      (check_id : String) (operands : List Operand)
      → Keeps P (check_value_binding platform source check_id operands)
  unfolding check_value_binding
  check_value_binding-Keeps check_id operands =
      Keeps-try _ _ (Keeps-bind _ _ (bind_operands-Keeps [] operands) λ bound. Keeps-lift _)

  check_sqlite-Keeps :
      (check_id path : String) (mode : Mode)
      → Keeps P (check_sqlite platform source check_id path mode)
  unfolding check_sqlite
  check_sqlite-Keeps check_id path mode =
      Keeps-try _ _ (Keeps-bind _ _ (lasts.read path none) λ bytes. Keeps-pure _)

  check_zip_member-Keeps :
      (check_id : String) (config : ZipMember)
      → Keeps P (check_zip_member platform source check_id config)
  unfolding check_zip_member
  check_zip_member-Keeps check_id config = Keeps-try _ _ (
      Keeps-bind _ _ (lasts.read config.archive _) λ archive.
        Keeps-bind _ _ (sha256-Keeps config.target)
          λ digest. Keeps-bind _ _ (Keeps-lift _) λ observed. Keeps-pure _)

  run_config-Keeps :
      (check_id : String) (config : Config) → Keeps P (run_config platform source check_id config)
  unfolding run_config
  run_config-Keeps check_id (sqlite_integrity path mode) = check_sqlite-Keeps check_id path mode
  run_config-Keeps check_id (zip_member_matches config) = check_zip_member-Keeps check_id config
  run_config-Keeps check_id (environment e) = Keeps-pure _
  run_config-Keeps check_id (value_binding operands) = check_value_binding-Keeps check_id operands

  pub run_declared_check-Keeps :
      (profile : String) (check : CheckSpec)
      → Keeps P (run_declared_check platform source profile check)
  unfolding run_declared_check
  run_declared_check-Keeps profile check = elim (Bool-cases (mem profile check.profiles)) [
    | inl active ↦ rw active (run_config-Keeps check.check_id check.config)
    | inr idle ↦ rw idle (Keeps-pure _)
  ]
