-- ===== src/Manifest/Pointer.antt =====
-- `_validate_json_pointer` of src/artifact_proof/manifest.py.
use Prim.Native.Char.{Char}
use artifact_proof_lab.Base.{Bool, true, false, ◌||◌, List, [], ◌∷◌, if◌then◌else◌}
use artifact_proof_lab.Base.Text.{is_char}

-- The `while` loop, at the characters from `index` on: each "~" is followed by "0" or "1".
unfoldable pub valid_escapes : List Char → Bool
valid_escapes [] = true
valid_escapes (c ∷ []) = if is_char b'~' c then false else true
valid_escapes (c ∷ d ∷ cs) =
    let escaped = valid_escapes cs in
    let plain = valid_escapes (d ∷ cs) in
    if is_char b'~' c then (if is_char b'0' d || is_char b'1' d then escaped else false) else plain
