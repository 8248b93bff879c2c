-- ===== src/Manifest/ShapeLaws.antt =====
-- What the helpers of the parser ensure of the values that they let through.
use Prim.Native.Char.{Char, code}
use artifact_proof_lab.Base.{
  ℕ, String, ◌⊎◌, ◌≡◌, Bool, true, false, ◌&&◌, ◌||◌, Option, some, List, [], ◌∷◌, all, All, Holds,
  mem-Holds, arith, eqb, eqb_iff, leb, Bool-cases, inl, inr, if◌then◌else◌,
}
use artifact_proof_lab.Base.Text.{chars, is_char}
use artifact_proof_lab.Base.Outcome.{
  source_error, Result, ok, raise, Ensures, holds, raised, Ensures-bind, Ensures-require,
  Ensures-if,
}
use artifact_proof_lab.Json.{Json, Number, str}
use artifact_proof_lab.Paths.{canonical_relative_path}
use artifact_proof_lab.Paths.Portable.{IsPortable, canonical-Ensures}
use artifact_proof_lab.Platform.{Platform}
use artifact_proof_lab.Manifest.Types.{FileSpec}
use artifact_proof_lab.Manifest.Shape.{
  nonempty, is_filled, is_sha256, path, as_manifest_error, declared_path,
}
use artifact_proof_lab.Manifest.Pointer.{valid_escapes}
use artifact_proof_lab.Manifest.Check.{parse_pointer}
use artifact_proof_lab.Manifest.Fits.{
  IsHex, IsDigest, IsFilled, IsEscaped, done, plain, tilde, IsRooted, IsPointer, paths,
}

all-IsHex :
    (cs : List Char)
    → all
        (λ c. (leb b'0' (code c) && leb (code c) b'9') || (leb b'a' (code c) && leb (code c) b'f'))
        cs
      ≡ true
    → All IsHex cs
all-IsHex [] h = tt
all-IsHex (c ∷ cs) h = (ground arith, all-IsHex cs (ground arith))

pub is_sha256-IsDigest : (s : String) → is_sha256 s ≡ true → IsDigest s
unfolding is_sha256
is_sha256-IsDigest s h = record { size = ground arith; hex = all-IsHex (chars s) (ground arith) }

if_else_false : (a b : Bool) → (if a then b else false) ≡ true → (a ≡ true) × (b ≡ true)
if_else_false a b h = ground arith

zero_or_one : (n : ℕ) → (eqb n b'0' || eqb n b'1') ≡ true → (n ≡ b'0') ⊎ (n ≡ b'1')
zero_or_one n h = ground arith

pub valid_escapes-IsEscaped : (cs : List Char) → valid_escapes cs ≡ true → IsEscaped cs
unfolding valid_escapes
valid_escapes-IsEscaped [] h = done
valid_escapes-IsEscaped (c ∷ []) h = plain c (λ e. ground arith) done
valid_escapes-IsEscaped (c ∷ d ∷ cs) h = elim (Bool-cases (is_char b'~' c)) [
  | inl escape ↦
      let (digit, rest) = if_else_false _ (valid_escapes cs) (rw escape at h) in
      tilde c d ((eqb_iff (code c) b'~').0 escape) (zero_or_one (code d) digit)
        (valid_escapes-IsEscaped cs rest)
  | inr literal ↦
      plain c (λ e. cc ((eqb_iff (code c) b'~').1 e, literal))
        (valid_escapes-IsEscaped (d ∷ cs) (rw literal at h))
]

rooted :
    (cs : List Char)
    → elim cs as (λ _. Bool) [ [] ↦ true | c ∷ _ ↦ is_char b'/' c ] ≡ true
    → IsRooted cs
rooted [] h = tt
rooted (c ∷ cs) h = (eqb_iff (code c) b'/').0 h

pub parse_pointer-Ensures : (v : Option (Json Number)) → Ensures IsPointer (parse_pointer v)
unfolding parse_pointer
parse_pointer-Ensures (some (str s)) = Ensures-bind (Ensures-require _ _) λ _ slash.
    Ensures-bind (Ensures-require _ _) λ _ escapes. holds (record {
      escaped = valid_escapes-IsEscaped (chars s) escapes;
      rooted = rooted (chars s) slash;
    })
parse_pointer-Ensures _ = raised

pub nonempty-Ensures : (v : Option (Json Number)) → Ensures IsFilled (nonempty v)
unfolding nonempty
nonempty-Ensures (some (str s)) = Ensures-if (is_filled s) (λ h. holds h) (λ _. raised)
nonempty-Ensures _ = raised

module _ (platform : Platform) where
  relabel :
      (r : Result String)
      → Ensures (IsPortable platform) r
      → Ensures (IsPortable platform) (as_manifest_error r)
  relabel (ok p) (holds h) = holds h
  relabel (raise (source_error m)) h = raised
  relabel (raise _) h = raised

  pub path-Ensures : (v : Option (Json Number)) → Ensures (IsPortable platform) (path platform v)
  unfolding path
  path-Ensures (some (str s)) =
      relabel (canonical_relative_path platform s) (canonical-Ensures platform s)
  path-Ensures _ = raised

  pub declared_path-Ensures :
      (files : List (String × FileSpec)) (v : Option (Json Number))
      → Ensures (λ p. Holds p (paths files)) (declared_path platform files v)
  unfolding declared_path
  declared_path-Ensures files v =
      Ensures-bind (path-Ensures v)
        λ p _. Ensures-bind (Ensures-require _ _) λ _ there. holds (mem-Holds p (paths files) there)
