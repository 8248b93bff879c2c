-- ===== src/Checks/Normal.antt =====
-- `_normalize_json_value` and `_canonical_json_value` of src/artifact_proof/checks.py.
use Prim.Native.Char.{Char}
use Prim.Native.String.{compare}
use text.Mathlib.Text.{is_le}
use artifact_proof_lab.Base.{ℕ, String, true, List, [], ◌∷◌, map, eqb, if◌then◌else◌}
use artifact_proof_lab.Base.Int.{ℤ, pos}
use artifact_proof_lab.Base.Text.{of_chars}
use artifact_proof_lab.Json.{
  Json, Items, Fields, Decimal, null, bool, num, str, arr, obj, nil, cons, end, field, items_of,
}
use artifact_proof_lab.Json.Dump.{Codes, dump, dump_int}
use artifact_proof_lab.Checks.Decimal.{canonical_decimal}

-- str(digit)
unfoldable pub digit_char : ℕ → Char
digit_char d =
    if eqb d 0
    then "0"
    else if eqb d 1
    then "1"
    else if eqb d 2
    then "2"
    else if eqb d 3
    then "3"
    else if eqb d 4
    then "4"
    else if eqb d 5
    then "5"
    else if eqb d 6
    then "6"
    else if eqb d 7
    then "7"
    else if eqb d 8
    then "8"
    else "9"

-- A list literal.
abbrev pub list : List (Json ℤ) → Json ℤ
list vs = arr (items_of vs)

unfoldable pub normal_decimal : Decimal → Json ℤ
unfolding canonical_decimal digit_char
normal_decimal d =
    let c = canonical_decimal d in
    list (
      str "number"
      ∷ num (pos c.sign)
      ∷ str (of_chars (map digit_char c.digits))
      ∷ num c.exponent
      ∷ [])

-- The members of an object, in the order of `sorted(value)`: the keys are distinct.
unfoldable pub insert_member : String × Json ℤ → List (String × Json ℤ) → List (String × Json ℤ)
insert_member m [] = m ∷ []
insert_member m (n ∷ ns) =
    let rest = insert_member m ns in if is_le (compare m.0 n.0) then m ∷ n ∷ ns else n ∷ rest

abbrev pub pair : String × Json ℤ → Json ℤ
pair (k, v) = list (str k ∷ v ∷ [])

unfoldable mutual
  pub normalize : Json Decimal → Json ℤ
  normalize null = list (str "null" ∷ [])
  normalize (bool b) = list (str "bool" ∷ bool b ∷ [])
  normalize (num d) = normal_decimal d
  normalize (str s) = list (str "string" ∷ str s ∷ [])
  normalize (arr vs) = list (str "array" ∷ list (normalize_items vs) ∷ [])
  normalize (obj fs) = list (str "object" ∷ list (map pair (normalize_fields fs)) ∷ [])

  pub normalize_items : Items Decimal → List (Json ℤ)
  normalize_items nil = []
  normalize_items (cons v vs) = normalize v ∷ normalize_items vs

  pub normalize_fields : Fields Decimal → List (String × Json ℤ)
  normalize_fields end = []
  normalize_fields (field k v fs) = insert_member (k, normalize v) (normalize_fields fs)

unfoldable pub canonical_json_value : Json Decimal → Codes
unfolding normalize normal_decimal insert_member dump dump_int
canonical_json_value v = dump true dump_int (normalize v)
