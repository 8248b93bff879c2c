-- ===== src/Gym/CurriculumLaws.antt =====
-- What the parser of gym/curriculum.py accepts.
use artifact_proof_lab.Base.{
  ℕ, ◌+◌, String, ◌≡◌, ◌≢◌, true, false, Option, none, some, List, [], ◌∷◌, map, any, mem, All,
  Holds, eqb, eqb_iff, ◌==◌, eq_iff, and_true, or_false, not-mem, Bool-cases, inl, inr, arith,
}
use artifact_proof_lab.Base.Pairs.{is_set, is_set_iff, Pairwise, Pairwise-image}
use artifact_proof_lab.Base.Outcome.{
  curriculum_error, ok, raise, require, ◌>>◌, Ensures, holds, raised, Ensures-bind, Ensures-require,
  Ensures-reject, Ensures-ok, Ensures-traverse, Ensures-if, Ensures-any,
}
use artifact_proof_lab.Json.{Json, Number, null, bool, num, str, arr, obj, get, elements}
use artifact_proof_lab.Gym.Core.{Arithmetic}
use artifact_proof_lab.Gym.Curriculum.{
  CurriculumStage, Curriculum, same_text, is_empty, required_string, filled_texts, string_tuple,
  rate, stage_from_mapping, contiguous, curriculum_from_mapping,
}

required_string-filled : (v : Option (Json Number)) → Ensures (λ s. s ≢ "") (required_string v)
unfolding required_string
required_string-filled (some (str s)) =
    Ensures-if (s == "") (λ e. raised) (λ e. holds (λ same. ground (arith, eq_iff s "")))
required_string-filled (some null) = raised
required_string-filled (some (bool b)) = raised
required_string-filled (some (num n)) = raised
required_string-filled (some (arr vs)) = raised
required_string-filled (some (obj fs)) = raised
required_string-filled none = raised

-- Texts that are not empty, each once.
abbrev pub AreNames : List String → Type 0
AreNames ss = All (λ s. s ≢ "") ss × Pairwise (λ s t. s ≢ t) ss

-- The same of a list that may be missing.
abbrev AllFilled : Option (List String) → Type 0
AllFilled none = Unit
AllFilled (some ss) = All (λ s. s ≢ "") ss

filled_cons :
    (s : String) (later : Option (List String))
    → s ≢ ""
    → AllFilled later
    → AllFilled (elim later [ none ↦ none | some ss ↦ some (s ∷ ss) ])
filled_cons s none filled h = tt
filled_cons s (some ss) filled h = (filled, h)

filled_texts-AllFilled : (vs : List (Json Number)) → AllFilled (filled_texts vs)
unfolding filled_texts
filled_texts-AllFilled [] = tt
filled_texts-AllFilled (str s ∷ vs) = elim (Bool-cases (s == "")) [
  | inl empty ↦ rw empty tt
  | inr filled ↦ rw filled (
      filled_cons s (filled_texts vs) (λ e. ground (arith, eq_iff s ""))
        (filled_texts-AllFilled vs))
]
filled_texts-AllFilled (null ∷ vs) = tt
filled_texts-AllFilled (bool b ∷ vs) = tt
filled_texts-AllFilled (num n ∷ vs) = tt
filled_texts-AllFilled (arr us ∷ vs) = tt
filled_texts-AllFilled (obj fs ∷ vs) = tt

distinct_names :
    (found : Option (List String))
    → AllFilled found
    → Ensures AreNames (elim found [
      | none ↦ raise (curriculum_error "entries must be non-empty strings")
      | some ss ↦
          require (is_set same_text ss) (curriculum_error "must not contain duplicates") >> ok ss
    ])
distinct_names none h = raised
distinct_names (some ss) h =
    Ensures-bind (Ensures-require (is_set same_text ss) _)
      λ passed set. holds (h, (is_set_iff same_text eq_iff ss).0 set)

string_tuple-AreNames : (v : Option (Json Number)) → Ensures AreNames (string_tuple v)
unfolding string_tuple
string_tuple-AreNames (some (arr vs)) =
    distinct_names (filled_texts (elements vs)) (filled_texts-AllFilled (elements vs))
string_tuple-AreNames (some null) = raised
string_tuple-AreNames (some (bool b)) = raised
string_tuple-AreNames (some (num n)) = raised
string_tuple-AreNames (some (str s)) = raised
string_tuple-AreNames (some (obj fs)) = raised
string_tuple-AreNames none = raised

filled_list : (ss : List String) → is_empty ss ≡ false → ss ≢ []
filled_list [] h e = cc
filled_list (s ∷ ss) h e = cc

apart : (ss ts : List String) → any (λ s. mem s ts) ss ≡ false → All (λ s. ¬ Holds s ts) ss
apart [] ts h = tt
apart (s ∷ ss) ts h =
    let (first, later) = or_false (mem s ts) (any (λ r. mem r ts) ss) h in
    (not-mem s ts first, apart ss ts later)

module _ (arithmetic : Arithmetic) where
  -- A stage as its parser leaves it.
  pub record IsStage (stage : CurriculumStage) : Type 0 where
    pub named : stage.name ≢ ""
    pub train : AreNames stage.train_task_ids
    pub validation : AreNames stage.validation_task_ids
    pub skills : AreNames stage.required_skill_targets
    pub some_train : stage.train_task_ids ≢ []
    pub some_validation : stage.validation_task_ids ≢ []
    pub disjoint : All (λ id. ¬ Holds id stage.validation_task_ids) stage.train_task_ids
    pub train_rate : arithmetic.is_rate stage.min_train_admission_rate ≡ true
    pub validation_rate : arithmetic.is_rate stage.min_validation_admission_rate ≡ true
    pub budget_rate : arithmetic.is_rate stage.max_budget_exhaustion_rate ≡ true

  rate-is_rate :
      (v : Option (Json Number)) → Ensures (λ r. arithmetic.is_rate r ≡ true) (rate arithmetic v)
  unfolding rate
  rate-is_rate (some (num n)) =
      Ensures-bind (Ensures-any (arithmetic.to_float (num n))) λ number read.
        Ensures-bind (Ensures-require (arithmetic.is_rate number) _) λ passed fits. holds fits
  rate-is_rate (some null) = raised
  rate-is_rate (some (bool b)) = raised
  rate-is_rate (some (arr vs)) = raised
  rate-is_rate (some (str s)) = raised
  rate-is_rate (some (obj fs)) = raised
  rate-is_rate none = raised

  stage_from_mapping-IsStage :
      (raw : Json Number) → Ensures IsStage (stage_from_mapping arithmetic raw)
  unfolding stage_from_mapping
  stage_from_mapping-IsStage raw = Ensures-bind (Ensures-any _) λ fs read.
      Ensures-bind (Ensures-any _) λ index number.
        Ensures-bind (required_string-filled (get "name" fs)) λ name named.
          Ensures-bind (string_tuple-AreNames (get "train_task_ids" fs)) λ train train_ok.
            Ensures-bind (string_tuple-AreNames (get "validation_task_ids" fs))
              λ validation validation_ok.
                Ensures-bind (string_tuple-AreNames (get "required_skill_targets" fs))
                  λ skills skills_ok.
                    Ensures-bind (Ensures-reject (is_empty train) _) λ a some_train.
                      Ensures-bind (Ensures-reject (is_empty validation) _) λ b some_validation.
                        Ensures-bind (Ensures-reject (any (λ t. mem t validation) train) _)
                          λ c disjoint.
                            Ensures-bind (rate-is_rate (get "min_train_admission_rate" fs))
                              λ min_train r1.
                                Ensures-bind (rate-is_rate (get "min_validation_admission_rate" fs))
                                  λ min_validation r2.
                                    Ensures-bind
                                      (rate-is_rate (get "max_budget_exhaustion_rate" fs))
                                      λ max_budget r3. Ensures-bind (Ensures-any _) λ updates flag.
                                        holds (record {
                                          named = named;
                                          train = train_ok;
                                          validation = validation_ok;
                                          skills = skills_ok;
                                          some_train = filled_list train some_train;
                                          some_validation = filled_list validation some_validation;
                                          disjoint = apart train validation disjoint;
                                          train_rate = r1;
                                          validation_rate = r2;
                                          budget_rate = r3;
                                        })

  -- The indexes count from a number on.
  abbrev pub Indexed : ℕ → List CurriculumStage → Type 0
  Indexed n [] = Unit
  Indexed n (stage ∷ stages) = (stage.index ≡ n) × Indexed (n + 1) stages

  contiguous-Indexed :
      (n : ℕ) (stages : List CurriculumStage) → contiguous n stages ≡ true → Indexed n stages
  unfolding contiguous
  contiguous-Indexed n [] h = tt
  contiguous-Indexed n (stage ∷ stages) h =
      let (first, later) = and_true (eqb stage.index n) (contiguous (n + 1) stages) h in
      ((eqb_iff stage.index n).0 first, contiguous-Indexed (n + 1) stages later)

  pub record IsCurriculum (curriculum : Curriculum) : Type 0 where
    pub named : curriculum.curriculum_id ≢ ""
    pub stages : All IsStage curriculum.stages
    pub indexed : Indexed 0 curriculum.stages
    pub distinct : Pairwise (λ a b. a.name ≢ b.name) curriculum.stages

  curriculum_from_mapping-Ensures :
      (raw : Json Number) → Ensures IsCurriculum (curriculum_from_mapping arithmetic raw)
  unfolding curriculum_from_mapping
  curriculum_from_mapping-Ensures raw = Ensures-bind (Ensures-any _) λ fs read.
      Ensures-bind (Ensures-any _) λ a format.
        Ensures-bind (required_string-filled (get "curriculum_id" fs)) λ id named.
          Ensures-bind (Ensures-any _) λ raws listed.
            Ensures-bind (Ensures-traverse raws stage_from_mapping-IsStage) λ stages all_stages.
              Ensures-bind (Ensures-require (contiguous 0 stages) _) λ b indexed.
                Ensures-bind (Ensures-require (is_set same_text (map (λ s. s.name) stages)) _)
                  λ c set. holds (record {
                    named = named;
                    stages = all_stages;
                    indexed = contiguous-Indexed 0 stages indexed;
                    distinct =
                        (Pairwise-image (λ (s : CurriculumStage). s.name) ◌≢◌ stages).0
                          ((is_set_iff same_text eq_iff (map (λ s. s.name) stages)).0 set);
                  })

  -- A curriculum that is parsed has a name, stages that count from 0 and have distinct names, and
  -- each stage has train and validation tasks, named, distinct and apart from each other, distinct
  -- skills, and rates in their range.
  pub curriculum_from_mapping-IsCurriculum :
      (raw : Json Number) (curriculum : Curriculum)
      → curriculum_from_mapping arithmetic raw ≡ ok curriculum
      → IsCurriculum curriculum
  curriculum_from_mapping-IsCurriculum raw curriculum e =
      Ensures-ok (curriculum_from_mapping-Ensures raw) e
