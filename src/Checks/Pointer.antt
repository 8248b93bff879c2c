-- ===== src/Checks/Pointer.antt =====
-- `_resolve_json_pointer` of src/artifact_proof/checks.py.
use Prim.Native.Char.{Char}
use artifact_proof_lab.Base.{
  ℕ, zero, suc, ◌+◌, ◌*◌, String, Bool, false, not, ◌&&◌, Option, none, some, List, [], ◌∷◌, all,
  ◌==◌, if◌then◌else◌,
}
use artifact_proof_lab.Base.Text.{chars, of_chars, is_char}
use artifact_proof_lab.Base.Outcome.{value_error, Result, ok, raise, require, ◌>>=◌, ◌>>◌}
use artifact_proof_lab.Json.{Json, arr, obj, get, elements}
use artifact_proof_lab.Platform.{Platform}
use artifact_proof_lab.Paths.Split.{split}

-- token.replace(f"~{digit}", by): one pass from the left.
unfoldable pub replace : ℕ → Char → List Char → List Char
replace digit by [] = []
replace digit by (c ∷ []) = c ∷ []
replace digit by (c ∷ d ∷ cs) =
    let hit = replace digit by cs in
    let miss = replace digit by (d ∷ cs) in
    if is_char b'~' c && is_char digit d then by ∷ hit else c ∷ miss

-- raw_token.replace("~1", "/").replace("~0", "~")
unfoldable pub unescape : List Char → List Char
unfolding replace
unescape cs = replace b'0' "~" (replace b'1' "/" cs)

abbrev rest_of : List String → List String
rest_of [] = []
rest_of (_ ∷ parts) = parts

module _ (platform : Platform) where
  -- token == "-" or not token.isdigit() or (len(token) > 1 and token.startswith("0")), negated.
  unfoldable pub valid_index : List Char → Bool
  valid_index [] = false
  valid_index (c ∷ []) = platform.is_digit c && not (is_char b'-' c)
  valid_index (c ∷ d ∷ cs) = all platform.is_digit (c ∷ d ∷ cs) && not (is_char b'0' c)

  -- int(token)
  unfoldable pub index_from : ℕ → List Char → Result ℕ
  index_from n [] = ok n
  index_from n (c ∷ cs) = elim (platform.decimal_digit c) [
    | none ↦ raise (value_error "invalid literal for int()")
    | some d ↦ index_from (10 * n + d) cs
  ]

module _ {N : Type 0} where
  unfoldable pub nth : List (Json N) → ℕ → Option (Json N)
  nth [] i = none
  nth (v ∷ vs) zero = some v
  nth (v ∷ vs) (suc i) = nth vs i

  abbrev pub found : Option (Json N) → String → Result (Json N)
  found none m = raise (value_error m)
  found (some v) m = ok v

module _ {N : Type 0} (platform : Platform) where
  -- One step of the loop: `current` under `token`.
  unfoldable pub descend : Json N → List Char → Result (Json N)
  unfolding valid_index index_from nth
  descend (obj fs) token = found (get (of_chars token) fs) "JSON Pointer member is missing"
  descend (arr vs) token = do
    require (valid_index platform token) (value_error "JSON Pointer array index is invalid")
    index ← index_from platform 0 token
    found (nth (elements vs) index) "JSON Pointer array index is out of range"
  descend _ token = raise (value_error "JSON Pointer descends through a scalar")

  unfoldable pub follow : Json N → List String → Result (Json N)
  unfolding unescape descend
  follow current [] = ok current
  follow current (raw_token ∷ tokens) = do
    next ← descend current (unescape (chars raw_token))
    follow next tokens

  unfoldable pub resolve_json_pointer : Json N → String → Result (Json N)
  unfolding follow
  resolve_json_pointer document pointer =
      if pointer == "" then ok document else follow document (rest_of (split pointer))
