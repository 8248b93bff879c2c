-- ===== src/Gym/Canonical.antt =====
-- `canonical_json_bytes` and the digests on it, of gym/ledger.py. A float is printed as its repr.
use Prim.Native.String.{compare}
use text.Mathlib.Text.{is_le}
use artifact_proof_lab.Base.{
  ℕ, ◌+◌, ◌/◌, ◌%◌, String, false, List, [], ◌∷◌, ◌++◌, ltb, if◌then◌else◌,
}
use artifact_proof_lab.Json.{
  Json, Items, Fields, Number, int, float, null, bool, num, str, arr, obj, nil, cons, end, field,
  items_of,
}
use artifact_proof_lab.Json.Dump.{Codes, codes, dump, dump_int}
use artifact_proof_lab.Platform.{Platform, Bytes}

-- sort_keys=True: the keys of an object are distinct.
unfoldable pub insert_key : String → Json Number → Fields Number → Fields Number
insert_key k v end = field k v end
insert_key k v (field j w fs) =
    let rest = insert_key k v fs in
    if is_le (compare k j) then field k v (field j w fs) else field j w rest

unfoldable mutual
  unfolding insert_key

  pub sort_value : Json Number → Json Number
  sort_value null = null
  sort_value (bool b) = bool b
  sort_value (num n) = num n
  sort_value (str s) = str s
  sort_value (arr vs) = arr (sort_items vs)
  sort_value (obj fs) = obj (sort_fields fs)

  pub sort_items : Items Number → Items Number
  sort_items nil = nil
  sort_items (cons v vs) = cons (sort_value v) (sort_items vs)

  pub sort_fields : Fields Number → Fields Number
  sort_fields end = end
  sort_fields (field k v fs) = insert_key k (sort_value v) (sort_fields fs)

abbrev print_number : Number → Codes
unfolding dump_int
print_number (int n) = dump_int n
print_number (float r) = codes r

-- str.encode("utf-8") of one code point
unfoldable pub utf8 : ℕ → Bytes
utf8 n =
    if ltb n 0x80
    then n ∷ []
    else if ltb n 0x800
    then (0xc0 + n / 64) ∷ (0x80 + n % 64) ∷ []
    else if ltb n 0x10000
    then (0xe0 + n / 4096) ∷ (0x80 + n / 64 % 64) ∷ (0x80 + n % 64) ∷ []
    else (0xf0 + n / 262144) ∷ (0x80 + n / 4096 % 64) ∷ (0x80 + n / 64 % 64) ∷ (0x80 + n % 64) ∷ []

unfoldable pub encode : Codes → Bytes
unfolding utf8
encode [] = []
encode (n ∷ ns) = utf8 n ++ encode ns

unfoldable pub canonical_json_bytes : Json Number → Bytes
unfolding encode sort_value dump print_number
canonical_json_bytes v = encode (dump false print_number (sort_value v))

module _ (platform : Platform) where
  unfoldable pub sha256_json : Json Number → String
  unfolding canonical_json_bytes
  sha256_json v = platform.sha256 (canonical_json_bytes v)

  unfoldable pub observation_frontier_sha256 : List (Json Number) → String
  unfolding sha256_json
  observation_frontier_sha256 observations = sha256_json (arr (items_of observations))
