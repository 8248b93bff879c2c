-- ===== src/Manifest/Types.antt =====
-- The records of src/artifact_proof/manifest.py. A check's `config` mapping is a constructor for
-- each check type, with the mapping's entries as its fields.
use artifact_proof_lab.Base.{ℕ, String, Bool, Option, List, [], ◌∷◌}

pub record FileSpec : Type 0 where
  pub sha256 : String
  pub mutable : Bool

pub data Mode : Type 0 where
  quick full : Mode

pub data Operand : Type 0 where
  json_pointer : (path pointer : String) → Operand
  file_sha256 : (path : String) → Operand

pub record ZipMember : Type 0 where
  pub archive : String
  pub member : String
  pub target : String
  pub only_member : Bool

pub record Environment : Type 0 where
  pub python_implementation : String
  pub python_major : ℕ
  pub python_minor : ℕ
  pub platform_system : String
  pub platform_machine : Option String
  pub enforce : Bool

pub data Config : Type 0 where
  sqlite_integrity : (path : String) (mode : Mode) → Config
  zip_member_matches : ZipMember → Config
  value_binding : List Operand → Config
  environment : Environment → Config

-- CheckSpec.check_type
unfoldable pub check_type : Config → String
check_type (sqlite_integrity _ _) = "sqlite_integrity"
check_type (zip_member_matches _) = "zip_member_matches"
check_type (value_binding _) = "value_binding"
check_type (environment _) = "environment"

pub record CheckSpec : Type 0 where
  pub check_id : String
  pub profiles : List String
  pub config : Config

pub record Manifest : Type 0 where
  pub name : String
  pub version : String
  pub files : List (String × FileSpec)
  pub checks : List CheckSpec
  pub complete_coverage : Bool
  pub allow_unlisted : List String

abbrev pub supported_profiles : List String
supported_profiles = "sealed" ∷ "live" ∷ []

abbrev pub supported_checks : List String
supported_checks = "sqlite_integrity" ∷ "zip_member_matches" ∷ "environment" ∷ "value_binding" ∷ []
