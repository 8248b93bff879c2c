-- ===== src/Manifest/Fits.antt =====
-- What a well-formed manifest is, told without the parser.
use Prim.Native.Char.{Char, code}
use artifact_proof_lab.Base.{
  String, ◌≡◌, ◌≢◌, ◌⊎◌, true, List, [], ◌∷◌, map, All, Holds, Distinct, length, ◌≤◌,
}
use artifact_proof_lab.Base.Text.{chars}
use artifact_proof_lab.Paths.Portable.{IsPortable}
use artifact_proof_lab.Platform.{Platform}
use artifact_proof_lab.Manifest.Types.{
  FileSpec, Operand, json_pointer, file_sha256, Config, sqlite_integrity, zip_member_matches,
  value_binding, environment, CheckSpec, Manifest, supported_profiles,
}
use artifact_proof_lab.Manifest.Shape.{is_filled}

-- A lowercase hexadecimal digit.
abbrev pub IsHex : Char → Type 0
IsHex c = ((b'0' ≤ code c) × (code c ≤ b'9')) ⊎ ((b'a' ≤ code c) × (code c ≤ b'f'))

pub record IsDigest (s : String) : Type 0 where
  pub size : length (chars s) ≡ 64
  pub hex : All IsHex (chars s)

abbrev pub IsFilled : String → Type 0
IsFilled s = is_filled s ≡ true

-- Every "~" of a JSON Pointer is followed by "0" or "1".
pub data IsEscaped : List Char → Type 0 where
  done : IsEscaped []
  plain : (c : Char) {cs : List Char} → code c ≢ b'~' → IsEscaped cs → IsEscaped (c ∷ cs)
  tilde :
      (c d : Char) {cs : List Char}
      → code c ≡ b'~'
      → (code d ≡ b'0') ⊎ (code d ≡ b'1')
      → IsEscaped cs
      → IsEscaped (c ∷ d ∷ cs)

-- Empty, or starting with a slash.
abbrev pub IsRooted : List Char → Type 0
IsRooted [] = Unit
IsRooted (c ∷ cs) = code c ≡ b'/'

pub record IsPointer (s : String) : Type 0 where
  pub escaped : IsEscaped (chars s)
  pub rooted : IsRooted (chars s)

module _ (platform : Platform) (names : List String) where
  abbrev pub OperandFits : Operand → Type 0
  OperandFits (json_pointer p pointer) = Holds p names × IsPointer pointer
  OperandFits (file_sha256 p) = Holds p names

  -- A check names declared files only.
  abbrev pub ConfigFits : Config → Type 0
  ConfigFits (sqlite_integrity p mode) = Holds p names
  ConfigFits (zip_member_matches z) =
      Holds z.archive names × Holds z.target names × IsPortable platform z.member
  ConfigFits (value_binding ops) = (2 ≤ length ops) × All OperandFits ops
  ConfigFits (environment e) = IsFilled e.python_implementation × IsFilled e.platform_system

  pub record CheckFits (check : CheckSpec) : Type 0 where
    pub identified : IsFilled check.check_id
    pub active : check.profiles ≢ []
    pub profiles : All (λ p. Holds p supported_profiles) check.profiles
    pub config : ConfigFits check.config

pub record FileFits (platform : Platform) (manifest_path : String) (file : String × FileSpec)
    : Type 0 where
  pub portable : IsPortable platform file.0
  pub not_self : file.0 ≢ manifest_path
  pub digest : IsDigest file.1.sha256

abbrev pub paths : List (String × FileSpec) → List String
paths files = map (λ e. e.0) files

pub record IsWellFormed (platform : Platform) (manifest_path : String) (m : Manifest) : Type 0 where
  pub named : IsFilled m.name
  pub versioned : IsFilled m.version
  pub files : All (FileFits platform manifest_path) m.files
  pub distinct_files : Distinct (paths m.files)
  pub allowed : All (IsPortable platform) m.allow_unlisted
  pub checks : All (CheckFits platform (paths m.files)) m.checks
  pub distinct_checks : Distinct (map (λ c. c.check_id) m.checks)
