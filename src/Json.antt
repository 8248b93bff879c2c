-- ===== src/Json.antt =====
-- JSON values as Python holds them after `json.loads`: an object keeps its members in the order of
-- the text. `N` is the type of its numbers. `unique_object` is `_unique_object` of
-- src/artifact_proof/manifest.py and `_unique_json_object` of src/artifact_proof/checks.py.
pub mod Unique
pub mod Dump
use artifact_proof_lab.Base.{
  ℕ, mem, String, Bool, true, false, ◌||◌, Option, none, some, List, [], ◌∷◌, ◌==◌, if◌then◌else◌,
}
use artifact_proof_lab.Base.Int.{ℤ}
use artifact_proof_lab.Base.Outcome.{Exception, Result, ok, raise, reject, ◌>>=◌, ◌>>◌}

mutual
  pub data Json (N : Type 0) : Type 0 where
    null : Json N
    bool : Bool → Json N
    num : N → Json N
    str : String → Json N
    arr : Items N → Json N
    obj : Fields N → Json N

  pub data Items (N : Type 0) : Type 0 where
    nil : Items N
    cons : Json N → Items N → Items N

  pub data Fields (N : Type 0) : Type 0 where
    end : Fields N
    field : String → Json N → Fields N → Fields N

-- A number of the default decoder. A float is kept as the text of its `repr`.
pub data Number : Type 0 where
  int : ℤ → Number
  float : String → Number

-- Decimal.as_tuple() of a finite number; the first digit is the most significant.
pub record Decimal : Type 0 where
  pub sign : ℕ
  pub digits : List ℕ
  pub exponent : ℤ

module _ {N : Type 0} where
  -- d.get(key)
  unfoldable pub get : String → Fields N → Option (Json N)
  get k end = none
  get k (field j v fs) = if j == k then some v else get k fs

  unfoldable pub keys : Fields N → List String
  keys end = []
  keys (field k v fs) = k ∷ keys fs

  unfoldable pub elements : Items N → List (Json N)
  elements nil = []
  elements (cons v vs) = v ∷ elements vs

  unfoldable pub members : Fields N → List (String × Json N)
  members end = []
  members (field k v fs) = (k, v) ∷ members fs

  abbrev pub items_of : List (Json N) → Items N
  items_of [] = nil
  items_of (v ∷ vs) = cons v (items_of vs)

  abbrev pub fields_of : List (String × Json N) → Fields N
  fields_of [] = end
  fields_of ((k, v) ∷ fs) = field k v (fields_of fs)

-- The hook runs on every object of the text, the inner ones first.
module _ {N : Type 0} (duplicate : Exception) where
  unfoldable mutual
    pub unique_object : List String → Fields N → Result (Unit {0})
    unique_object seen end = ok tt
    unique_object seen (field k v fs) = do
      unique_value v
      reject (mem k seen) duplicate
      unique_object (k ∷ seen) fs

    pub unique_value : Json N → Result (Unit {0})
    unique_value (arr vs) = unique_items vs
    unique_value (obj fs) = unique_object [] fs
    unique_value _ = ok tt

    pub unique_items : Items N → Result (Unit {0})
    unique_items nil = ok tt
    unique_items (cons v vs) = do unique_value v; unique_items vs
