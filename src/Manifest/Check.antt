-- ===== src/Manifest/Check.antt =====
-- `_parse_check` and `_parse_binding_operand` of src/artifact_proof/manifest.py.
use artifact_proof_lab.Base.{
  ℕ, mem, String, Bool, true, false, Option, none, some, List, [], ◌∷◌, ◌++◌, all, ◌==◌,
  if◌then◌else◌,
}
use artifact_proof_lab.Base.Int.{pos}
use artifact_proof_lab.Base.Text.{chars, is_char}
use artifact_proof_lab.Base.Outcome.{
  manifest_error, crash, Result, ok, raise, require, ◌>>=◌, ◌>>◌, traverse,
}
use artifact_proof_lab.Json.{
  Json, Fields, Number, null, bool, str, num, arr, obj, int, get, elements, cons, nil,
}
use artifact_proof_lab.Platform.{Platform}
use artifact_proof_lab.Manifest.Types.{
  FileSpec, Mode, quick, full, Operand, json_pointer, file_sha256, Config, sqlite_integrity,
  zip_member_matches, value_binding, environment, CheckSpec, supported_profiles, supported_checks,
}
use artifact_proof_lab.Manifest.Shape.{object, only_keys, nonempty, path, declared_path}
use artifact_proof_lab.Manifest.Pointer.{valid_escapes}

-- value.get(key, default) where a default is given
abbrev pub or_default : Option (Json Number) → Json Number → Json Number
or_default none d = d
or_default (some v) d = v

-- A member that has to be a Boolean, false by default.
abbrev pub flag : Option (Json Number) → Result Bool
flag none = ok false
flag (some (bool b)) = ok b
flag (some _) = raise (manifest_error "must be boolean")

-- A list or a dictionary cannot be put in a set: `frozenset` and `in` raise TypeError.
abbrev hashable : Json Number → Bool
hashable (arr _) = false
hashable (obj _) = false
hashable _ = true

abbrev pub text_value : Json Number → Result String
text_value (str s) = ok s
text_value _ = raise (manifest_error "invalid profiles")

unfoldable pub parse_profiles : Json Number → Result (List String)
parse_profiles (arr (cons v vs)) = do
  let raw = elements (cons v vs)
  require (all hashable raw) (crash "TypeError")
  profiles ← traverse text_value raw
  require (all (λ p. mem p supported_profiles) profiles) (manifest_error "invalid profiles")
  ok profiles
parse_profiles _ = raise (manifest_error "must be a non-empty list")

unfoldable pub parse_mode : Option (Json Number) → Result Mode
parse_mode none = ok full
parse_mode (some (str s)) =
    if s == "quick"
    then ok quick
    else if s == "full"
    then ok full
    else raise (manifest_error "invalid SQLite integrity mode")
parse_mode (some v) =
    if hashable v
    then raise (manifest_error "invalid SQLite integrity mode")
    else raise (crash "TypeError")

-- The string that `pointer` has to be: empty, or starting with "/".
abbrev pub leading_slash : String → Bool
leading_slash s = elim (chars s) [ [] ↦ true | c ∷ _ ↦ is_char b'/' c ]

unfoldable pub parse_pointer : Option (Json Number) → Result String
parse_pointer (some (str s)) = do
  require (leading_slash s) (manifest_error "must be an empty string or start with '/'")
  require (valid_escapes (chars s)) (manifest_error "invalid JSON Pointer escape")
  ok s
parse_pointer _ = raise (manifest_error "must be an empty string or start with '/'")

abbrev version_part : Json Number → Result ℕ
version_part (num (int (pos n))) = ok n
version_part _ = raise (manifest_error "must contain two integers")

unfoldable pub parse_version : Option (Json Number) → Result (ℕ × ℕ)
parse_version (some (arr (cons major (cons minor nil)))) = do
  a ← version_part major
  b ← version_part minor
  ok (a, b)
parse_version _ = raise (manifest_error "must contain two integers")

unfoldable pub parse_machine : Option (Json Number) → Result (Option String)
parse_machine none = ok none
parse_machine (some null) = ok none
parse_machine (some v) = do m ← nonempty (some v); ok (some m)

abbrev default_profiles : Json Number
default_profiles = arr (cons (str "sealed") (cons (str "live") nil))

abbrev common : List String
common = "id" ∷ "type" ∷ "profiles" ∷ []

-- The list of operands, if it has at least two.
abbrev pub two_operands : Option (Json Number) → Result (List (Json Number))
two_operands (some (arr (cons v (cons w vs)))) = ok (v ∷ w ∷ elements vs)
two_operands _ = raise (manifest_error "must contain at least two operands")

module _ (platform : Platform) (files : List (String × FileSpec)) where
  unfoldable pub pointer_operand : Fields Number → Result Operand
  unfolding declared_path parse_pointer
  pointer_operand value = do
    only_keys value ("kind" ∷ "path" ∷ "pointer" ∷ [])
    p ← declared_path platform files (get "path" value)
    pointer ← parse_pointer (get "pointer" value)
    ok (json_pointer p pointer)

  unfoldable pub file_operand : Fields Number → Result Operand
  unfolding declared_path
  file_operand value = do
    only_keys value ("kind" ∷ "path" ∷ [])
    p ← declared_path platform files (get "path" value)
    ok (file_sha256 p)

  -- _parse_binding_operand
  unfoldable pub parse_operand : Json Number → Result Operand
  unfolding pointer_operand file_operand
  parse_operand raw = do
    value ← object (some raw)
    kind ← nonempty (get "kind" value)
    if kind == "json_pointer"
        then pointer_operand value
        else if kind == "file_sha256"
        then file_operand value
        else raise (manifest_error "unsupported value-binding operand kind")

  unfoldable pub parse_sqlite : Fields Number → Result Config
  unfolding declared_path parse_mode
  parse_sqlite value = do
    only_keys value (common ++ "path" ∷ "mode" ∷ [])
    p ← declared_path platform files (get "path" value)
    mode ← parse_mode (get "mode" value)
    ok (sqlite_integrity p mode)

  unfoldable pub parse_zip_member : Fields Number → Result Config
  unfolding declared_path path
  parse_zip_member value = do
    only_keys value (common ++ "archive" ∷ "member" ∷ "target" ∷ "only_member" ∷ [])
    archive ← declared_path platform files (get "archive" value)
    target ← declared_path platform files (get "target" value)
    member ← path platform (get "member" value)
    only ← flag (get "only_member" value)
    ok (
        zip_member_matches
          (record { archive = archive; member = member; target = target; only_member = only }))

  unfoldable pub parse_binding : Fields Number → Result Config
  unfolding parse_operand
  parse_binding value = do
    only_keys value (common ++ "operands" ∷ [])
    raw ← two_operands (get "operands" value)
    operands ← traverse parse_operand raw
    ok (value_binding operands)

abbrev environment_keys : List String
environment_keys =
    common
    ++ "python_implementation" ∷ "python_major_minor" ∷ "platform_system" ∷ "platform_machine"
      ∷ "enforce" ∷ []

unfoldable pub parse_environment : Fields Number → Result Config
unfolding parse_version parse_machine
parse_environment value = do
  only_keys value environment_keys
  implementation ← nonempty (get "python_implementation" value)
  (major, minor) ← parse_version (get "python_major_minor" value)
  system ← nonempty (get "platform_system" value)
  machine ← parse_machine (get "platform_machine" value)
  enforce ← flag (get "enforce" value)
  ok (
      environment (record {
        python_implementation = implementation;
        python_major = major;
        python_minor = minor;
        platform_system = system;
        platform_machine = machine;
        enforce = enforce;
      }))

module _ (platform : Platform) (files : List (String × FileSpec)) where
  -- The ladder on `check_type`; its last branch is "environment".
  unfoldable pub parse_config : String → Fields Number → Result Config
  unfolding parse_sqlite parse_zip_member parse_binding parse_environment
  parse_config kind value =
      if kind == "sqlite_integrity"
      then parse_sqlite platform files value
      else if kind == "zip_member_matches"
      then parse_zip_member platform files value
      else if kind == "value_binding"
      then parse_binding platform files value
      else parse_environment value

  -- _parse_check
  unfoldable pub parse_check : Json Number → Result CheckSpec
  unfolding parse_profiles parse_config
  parse_check raw = do
    value ← object (some raw)
    check_id ← nonempty (get "id" value)
    kind ← nonempty (get "type" value)
    require (mem kind supported_checks) (manifest_error "unsupported check type")
    profiles ← parse_profiles (or_default (get "profiles" value) default_profiles)
    config ← parse_config kind value
    ok (record { check_id = check_id; profiles = profiles; config = config })
