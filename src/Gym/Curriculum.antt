-- ===== src/Gym/Curriculum.antt =====
-- The definition of a curriculum, of gym/curriculum.py: its stages and their parser. A rate is kept
-- as the `repr` of its float.
use artifact_proof_lab.Base.{
  ℕ, ◌+◌, String, Bool, true, false, ◌&&◌, Option, none, some, List, [], ◌∷◌, map, all, any, mem,
  eqb, ◌==◌, if◌then◌else◌,
}
use artifact_proof_lab.Base.Int.{pos}
use artifact_proof_lab.Base.Pairs.{is_set}
use artifact_proof_lab.Base.Outcome.{
  Exception, curriculum_error, crash, Result, ok, raise, require, reject, ◌>>=◌, ◌>>◌, traverse,
}
use artifact_proof_lab.Json.{
  Json, Number, Fields, Items, int, null, bool, num, str, arr, obj, get, keys, elements,
}
use artifact_proof_lab.Gym.Core.{Arithmetic}

abbrev pub curriculum_format : String
curriculum_format = "proof-gym-curriculum-v1"

pub record CurriculumStage : Type 0 where
  pub index : ℕ
  pub name : String
  pub train_task_ids : List String
  pub validation_task_ids : List String
  pub required_skill_targets : List String
  pub min_train_admission_rate : String
  pub min_validation_admission_rate : String
  pub max_budget_exhaustion_rate : String
  pub require_train_learning_updates : Bool

pub record Curriculum : Type 0 where
  pub curriculum_id : String
  pub stages : List CurriculumStage

-- set(xs) == set(ys)
abbrev pub same_set : List String → List String → Bool
same_set xs ys = all (λ x. mem x ys) xs && all (λ y. mem y xs) ys

abbrev pub same_text : String → String → Bool
same_text s t = s == t

abbrev stage_fields : List String
stage_fields =
    "index" ∷ "name" ∷ "train_task_ids" ∷ "validation_task_ids" ∷ "required_skill_targets"
    ∷ "min_train_admission_rate" ∷ "min_validation_admission_rate" ∷ "max_budget_exhaustion_rate"
    ∷ "require_train_learning_updates" ∷ []

abbrev curriculum_fields : List String
curriculum_fields = "format" ∷ "curriculum_id" ∷ "stages" ∷ []

-- `set(raw) != expected` of any value: an object gives its keys, a text its characters, which are no
-- field names; what is no collection, or holds one, has no set, and a list has no `get`.
abbrev is_collection : Json Number → Bool
is_collection (arr vs) = true
is_collection (obj fs) = true
is_collection _ = false

abbrev names_of : List (Json Number) → List String
names_of [] = []
names_of (str s ∷ vs) = s ∷ names_of vs
names_of (v ∷ vs) = "" ∷ names_of vs

unfoldable pub fields_in : List String → Json Number → Exception → Result (Fields Number)
unfolding keys elements
fields_in expected (obj fs) mismatch = if same_set (keys fs) expected then ok fs else raise mismatch
fields_in expected (str s) mismatch = raise mismatch
fields_in expected (arr vs) mismatch =
    if any is_collection (elements vs)
    then raise (crash "TypeError: unhashable")
    else if same_set (names_of (elements vs)) expected
    then raise (crash "AttributeError: get")
    else raise mismatch
fields_in expected null mismatch = raise (crash "TypeError: not iterable")
fields_in expected (bool b) mismatch = raise (crash "TypeError: not iterable")
fields_in expected (num n) mismatch = raise (crash "TypeError: not iterable")

-- _required_string
unfoldable pub required_string : Option (Json Number) → Result String
required_string (some (str s)) =
    if s == "" then raise (curriculum_error "must be a non-empty string") else ok s
required_string _ = raise (curriculum_error "must be a non-empty string")

-- The texts of a list, if each is a text that is not empty.
unfoldable pub filled_texts : List (Json Number) → Option (List String)
filled_texts [] = some []
filled_texts (str s ∷ vs) =
    let rest = filled_texts vs in
    if s == "" then none else elim rest [ none ↦ none | some ss ↦ some (s ∷ ss) ]
filled_texts (v ∷ vs) = none

-- _string_tuple
unfoldable pub string_tuple : Option (Json Number) → Result (List String)
unfolding elements filled_texts is_set ◌>>=◌
string_tuple (some (arr vs)) = elim (filled_texts (elements vs)) [
  | none ↦ raise (curriculum_error "entries must be non-empty strings")
  | some ss ↦
      require (is_set same_text ss) (curriculum_error "must not contain duplicates") >> ok ss
]
string_tuple _ = raise (curriculum_error "must be a list")

-- A non-negative integer that is no bool.
unfoldable pub stage_index : Option (Json Number) → Result ℕ
stage_index (some (num (int (pos n)))) = ok n
stage_index _ = raise (curriculum_error "curriculum stage index must be a non-negative integer")

unfoldable pub boolean : Option (Json Number) → Result Bool
boolean (some (bool b)) = ok b
boolean _ = raise (curriculum_error "require_train_learning_updates must be boolean")

abbrev pub is_empty : List String → Bool
is_empty [] = true
is_empty (x ∷ xs) = false

-- The stages as a list that is not empty.
unfoldable pub stage_list : Option (Json Number) → Result (List (Json Number))
unfolding elements
stage_list (some (arr (Items.cons v vs))) = ok (v ∷ elements vs)
stage_list _ = raise (curriculum_error "curriculum stages must be a non-empty list")

-- tuple(stage.index for stage in stages) == tuple(range(first, ...))
unfoldable pub contiguous : ℕ → List CurriculumStage → Bool
contiguous first [] = true
contiguous first (stage ∷ stages) = eqb stage.index first && contiguous (first + 1) stages

abbrev is_format : Option (Json Number) → Bool
is_format (some (str s)) = s == curriculum_format
is_format _ = false

module _ (arithmetic : Arithmetic) where
  -- _rate
  unfoldable pub rate : Option (Json Number) → Result String
  unfolding ◌>>=◌
  rate (some (num n)) = do
    number ← arithmetic.to_float (num n)
    require (arithmetic.is_rate number) (curriculum_error "must be within [0, 1]")
    ok number
  rate _ = raise (curriculum_error "must be numeric")

  -- CurriculumStage.from_mapping
  unfoldable pub stage_from_mapping : Json Number → Result CurriculumStage
  stage_from_mapping raw = do
    fs ← fields_in stage_fields raw (curriculum_error "curriculum stage fields mismatch")
    index ← stage_index (get "index" fs)
    name ← required_string (get "name" fs)
    train ← string_tuple (get "train_task_ids" fs)
    validation ← string_tuple (get "validation_task_ids" fs)
    skills ← string_tuple (get "required_skill_targets" fs)
    reject (is_empty train) (curriculum_error "curriculum stage must contain train tasks")
    reject (is_empty validation) (curriculum_error "curriculum stage must contain validation tasks")
    reject (any (λ t. mem t validation) train)
        (curriculum_error "train and validation tasks must be disjoint")
    min_train ← rate (get "min_train_admission_rate" fs)
    min_validation ← rate (get "min_validation_admission_rate" fs)
    max_budget ← rate (get "max_budget_exhaustion_rate" fs)
    require_updates ← boolean (get "require_train_learning_updates" fs)
    ok (record {
      index = index;
      name = name;
      train_task_ids = train;
      validation_task_ids = validation;
      required_skill_targets = skills;
      min_train_admission_rate = min_train;
      min_validation_admission_rate = min_validation;
      max_budget_exhaustion_rate = max_budget;
      require_train_learning_updates = require_updates;
    })

  -- Curriculum.from_mapping
  unfoldable pub curriculum_from_mapping : Json Number → Result Curriculum
  curriculum_from_mapping raw = do
    fs ← fields_in curriculum_fields raw (curriculum_error "curriculum fields mismatch")
    require (is_format (get "format" fs)) (curriculum_error "unsupported curriculum format")
    curriculum_id ← required_string (get "curriculum_id" fs)
    raws ← stage_list (get "stages" fs)
    stages ← traverse stage_from_mapping raws
    require (contiguous 0 stages)
        (curriculum_error "curriculum stage indexes must be contiguous from zero")
    require (is_set same_text (map (λ stage. stage.name) stages))
        (curriculum_error "curriculum stage names must be unique")
    ok (record { curriculum_id = curriculum_id; stages = stages })
