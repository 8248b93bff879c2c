-- ===== src/Manifest/Shape.antt =====
-- The helpers of src/artifact_proof/manifest.py that hold one JSON value to a shape. Their first
-- argument is what `dict.get` returned, so `none` is a missing key, which Python reads as None.
use Prim.Native.Char.{code}
use artifact_proof_lab.Base.{
  ℕ, mem, String, Bool, ◌&&◌, ◌||◌, not, Option, some, List, map, all, any, length, leb, eqb,
  if◌then◌else◌,
}
use artifact_proof_lab.Base.Text.{chars}
use artifact_proof_lab.Base.Outcome.{
  manifest_error, source_error, Result, ok, raise, require, ◌>>=◌, ◌>>◌,
}
use artifact_proof_lab.Json.{Json, Fields, Number, str, obj, keys}
use artifact_proof_lab.Paths.{canonical_relative_path}
use artifact_proof_lab.Platform.{Platform}
use artifact_proof_lab.Manifest.Types.{FileSpec}

-- _object
unfoldable pub object : Option (Json Number) → Result (Fields Number)
object (some (obj fs)) = ok fs
object _ = raise (manifest_error "must be an object")

-- _keys
unfoldable pub only_keys : Fields Number → List String → Result (Unit {0})
only_keys fs allowed = require (all (λ k. mem k allowed) (keys fs)) (manifest_error "unknown keys")

-- The characters that `str.strip` removes.
unfoldable pub is_space : ℕ → Bool
is_space n =
    (leb 9 n && leb n 13)
    || (leb 28 n && leb n 32)
    || eqb n 0x85
    || eqb n 0xa0
    || eqb n 0x1680
    || (leb 0x2000 n && leb n 0x200a)
    || eqb n 0x2028
    || eqb n 0x2029
    || eqb n 0x202f
    || eqb n 0x205f
    || eqb n 0x3000

-- bool(value.strip())
unfoldable pub is_filled : String → Bool
unfolding is_space
is_filled s = any (λ c. not (is_space (code c))) (chars s)

-- _nonempty
unfoldable pub nonempty : Option (Json Number) → Result String
nonempty (some (str s)) =
    if is_filled s then ok s else raise (manifest_error "must be a non-empty string")
nonempty _ = raise (manifest_error "must be a non-empty string")

-- _SHA256.fullmatch
unfoldable pub is_sha256 : String → Bool
is_sha256 s =
    eqb (length (chars s)) 64
    && all
        (λ c. (leb b'0' (code c) && leb (code c) b'9') || (leb b'a' (code c) && leb (code c) b'f'))
        (chars s)

-- `except SourceError as exc: raise ManifestError(...) from exc`
abbrev pub as_manifest_error : Result String → Result String
as_manifest_error (ok p) = ok p
as_manifest_error (raise (source_error m)) = raise (manifest_error "invalid path")
as_manifest_error (raise e) = raise e

-- _path
unfoldable pub path : Platform → Option (Json Number) → Result String
path platform (some (str s)) = as_manifest_error (canonical_relative_path platform s)
path platform _ = raise (manifest_error "must be a string path")

-- `key in mapping` and `mapping[key]`
module _ {ℓ} {V : Type ℓ} where
  abbrev pub declared : String → List (String × V) → Bool
  declared k m = mem k (map (λ e. e.0) m)

-- _declared_path
unfoldable pub declared_path :
    Platform → List (String × FileSpec) → Option (Json Number) → Result String
unfolding path
declared_path platform files v = do
  p ← path platform v
  require (declared p files) (manifest_error "references undeclared file")
  ok p
