-- ===== src/Paths.antt =====
-- src/artifact_proof/paths.py: the strict portable form of a relative path.
pub mod Split
pub mod Portable
pub mod Confined
use Prim.Native.Char.{Char, code}
use artifact_proof_lab.Base.{
  ℕ, String, Bool, true, false, ◌&&◌, ◌||◌, not, List, [], ◌∷◌, map, any, ◌==◌, leb, eqb,
  if◌then◌else◌,
}
use artifact_proof_lab.Base.Text.{chars, of_chars, is_char}
use artifact_proof_lab.Base.Outcome.{Exception, source_error, Result, ok, reject, ◌>>=◌, ◌>>◌}
use artifact_proof_lab.Paths.Split.{split, join}
use artifact_proof_lab.Platform.{Platform}

-- [A-Za-z]
is_letter : ℕ → Bool
is_letter n = (leb b'A' n && leb n b'Z') || (leb b'a' n && leb n b'z')

-- _DRIVE_PREFIX.match(raw)
pub drive_prefix : List Char → Bool
unfolding is_letter
drive_prefix (c ∷ colon ∷ _) = is_letter (code c) && is_char b':' colon
drive_prefix _ = false

starts_with_slash : List Char → Bool
starts_with_slash [] = false
starts_with_slash (c ∷ _) = is_char b'/' c

-- part in {"", ".", ".."}
abbrev is_special : String → Bool
is_special part = part == "" || part == "." || part == ".."

-- PurePosixPath(raw).as_posix() of a relative path: empty and "." parts are dropped.
drop_idle : List String → List String
drop_idle [] = []
drop_idle (p ∷ ps) = let rest = drop_idle ps in if p == "" || p == "." then rest else p ∷ rest

abbrev join_or_dot : List String → String
join_or_dot [] = "."
join_or_dot (p ∷ ps) = join (p ∷ ps)

as_posix : String → String
unfolding drop_idle
as_posix raw = join_or_dot (drop_idle (split raw))

unfoldable pub canonical_relative_path : Platform → String → Result String
unfolding drive_prefix starts_with_slash as_posix
canonical_relative_path platform raw = do
  reject (raw == "") (source_error "path must be a non-empty string")
  reject (any (is_char 0) (chars raw)) (source_error "path contains NUL")
  reject (any (is_char 92) (chars raw)) (source_error "path must use '/' separators")
  reject (starts_with_slash (chars raw) || drive_prefix (chars raw))
      (source_error "absolute path is forbidden")
  reject (not (platform.nfc raw == raw)) (source_error "path is not NFC-normalized")
  reject (any is_special (split raw)) (source_error "path is not canonical")
  reject (starts_with_slash (chars raw) || not (as_posix raw == raw))
      (source_error "path is not canonical")
  ok raw
