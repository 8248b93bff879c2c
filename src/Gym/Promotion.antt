-- ===== src/Gym/Promotion.antt =====
-- Promotion receipts of gym/curriculum.py: the evaluation of a stage, the verifier of a chain of
-- receipts, and the loop of gym/run_curriculum_reference.py that makes one.
use artifact_proof_lab.Base.{
  ℕ, ◌+◌, String, Bool, true, false, not, ◌&&◌, ◌||◌, List, [], ◌∷◌, ◌++◌, map, all, any, length,
  ltb, eqb, ◌==◌, if◌then◌else◌,
}
use artifact_proof_lab.Base.Pairs.{is_set}
use artifact_proof_lab.Base.Outcome.{
  curriculum_error, value_error, Result, ok, raise, require, reject, ◌>>=◌, ◌>>◌,
}
use artifact_proof_lab.Json.{Json, Number, float, bool, num, str, obj, fields_of}
use artifact_proof_lab.Model.{number}
use artifact_proof_lab.Manifest.Shape.{is_sha256}
use artifact_proof_lab.Platform.{Platform}
use artifact_proof_lab.Gym.Canonical.{sha256_json}
use artifact_proof_lab.Gym.Ledger.{zero_hash}
use artifact_proof_lab.Gym.Core.{EpisodeResult, texts, accepted, Arithmetic}
use artifact_proof_lab.Gym.Curriculum.{CurriculumStage, Curriculum, same_set}

abbrev pub promotion_format : String
promotion_format = "proof-gym-promotion-receipt-v1"

pub record PromotionReceipt : Type 0 where
  pub format : String
  pub curriculum_id : String
  pub stage_index : ℕ
  pub stage_name : String
  pub previous_checkpoint_sha256 : String
  pub train_task_ids : List String
  pub validation_task_ids : List String
  pub train_admission_rate : String
  pub validation_admission_rate : String
  pub budget_exhaustion_rate : String
  pub train_learning_update_rate : String
  pub promoted : Bool
  pub reasons : List String
  pub checkpoint_sha256 : String

abbrev float_json : String → Json Number
float_json r = num (float r)

-- PromotionReceipt.payload
unfoldable pub payload : PromotionReceipt → Json Number
payload r = obj (
    fields_of (
      ("format", str r.format)
      ∷ ("curriculum_id", str r.curriculum_id)
      ∷ ("stage_index", number r.stage_index)
      ∷ ("stage_name", str r.stage_name)
      ∷ ("previous_checkpoint_sha256", str r.previous_checkpoint_sha256)
      ∷ ("train_task_ids", texts r.train_task_ids)
      ∷ ("validation_task_ids", texts r.validation_task_ids)
      ∷ ("train_admission_rate", float_json r.train_admission_rate)
      ∷ ("validation_admission_rate", float_json r.validation_admission_rate)
      ∷ ("budget_exhaustion_rate", float_json r.budget_exhaustion_rate)
      ∷ ("train_learning_update_rate", float_json r.train_learning_update_rate)
      ∷ ("promoted", bool r.promoted)
      ∷ ("reasons", texts r.reasons)
      ∷ []))

-- sum(1 for x in xs if p(x))
unfoldable pub count_if : {A : Type 0} → (A → Bool) → List A → ℕ
count_if p [] = 0
count_if p (x ∷ xs) = (if p x then 1 else 0) + count_if p xs

abbrev pub ids : List EpisodeResult → List String
ids results = map (λ r. r.task_id) results

abbrev pub same_text : String → String → Bool
same_text s t = s == t

-- _index_results: the results, if their tasks are distinct and there is one. They are the values of
-- the dictionary in its order.
abbrev pub filled_results : List EpisodeResult → Result (List EpisodeResult)
filled_results [] = raise (curriculum_error "episode results must not be empty")
filled_results (r ∷ rs) = ok (r ∷ rs)

unfoldable pub index_results : List EpisodeResult → Result (List EpisodeResult)
unfolding is_set
index_results results =
    require (is_set same_text (ids results)) (curriculum_error "duplicate episode result")
    >> filled_results results

abbrev pub same_texts : List String → List String → Bool
same_texts [] [] = true
same_texts [] (t ∷ ts) = false
same_texts (s ∷ ss) [] = false
same_texts (s ∷ ss) (t ∷ ts) = s == t && same_texts ss ts

abbrev pub same_bool : Bool → Bool → Bool
same_bool true b = b
same_bool false b = not b

abbrev pub is_nil : List String → Bool
is_nil [] = true
is_nil (s ∷ ss) = false

abbrev pub reason_if : Bool → String → List String
reason_if test reason = if test then reason ∷ [] else []

module _ (arithmetic : Arithmetic) where
  abbrev same_rate : String → String → Bool
  same_rate a b = arithmetic.equal (float_json a) (float_json b)

  -- The equality of the dataclass.
  abbrev pub same_stage : CurriculumStage → CurriculumStage → Bool
  same_stage a b =
      eqb a.index b.index
      && (a.name == b.name
          && (same_texts a.train_task_ids b.train_task_ids
              && (same_texts a.validation_task_ids b.validation_task_ids
                  && (same_texts a.required_skill_targets b.required_skill_targets
                      && (same_rate a.min_train_admission_rate b.min_train_admission_rate
                          && (same_rate a.min_validation_admission_rate
                                b.min_validation_admission_rate
                              && (same_rate a.max_budget_exhaustion_rate
                                    b.max_budget_exhaustion_rate
                                  && same_bool a.require_train_learning_updates
                                      b.require_train_learning_updates)))))))

  abbrev pub rate_of : (EpisodeResult → Bool) → List EpisodeResult → String
  unfolding count_if
  rate_of p results = arithmetic.ratio (count_if p results) (length results)

  -- The reasons against a promotion.
  unfoldable pub reasons_against : CurriculumStage → String → String → String → String → List String
  reasons_against stage train_rate validation_rate budget_rate learning_rate =
      reason_if (arithmetic.exceeds stage.min_train_admission_rate train_rate)
        "train_admission_below_threshold"
      ++ (reason_if (arithmetic.exceeds stage.min_validation_admission_rate validation_rate)
            "validation_admission_below_threshold"
          ++ (reason_if (arithmetic.exceeds budget_rate stage.max_budget_exhaustion_rate)
                "budget_exhaustion_above_threshold"
              ++ reason_if
                  (stage.require_train_learning_updates
                    && arithmetic.exceeds train_rate learning_rate)
                  "admitted_train_episode_missing_learning_update"))

  module _ (platform : Platform) where
    -- The receipt with the hash of its payload.
    unfoldable pub sealed : PromotionReceipt → PromotionReceipt
    unfolding sha256_json payload
    sealed r = record r { checkpoint_sha256 = sha256_json platform (payload r) }

    unfoldable pub stage_receipt :
        Curriculum
        → CurriculumStage
        → List EpisodeResult
        → List EpisodeResult
        → String
        → PromotionReceipt
    unfolding sealed reasons_against rate_of accepted
    stage_receipt curriculum stage train validation previous =
        let train_rate = rate_of accepted train in
        let validation_rate = rate_of accepted validation in
        let budget_rate = rate_of (λ r. r.budget_exhausted) (train ++ validation) in
        let learning_rate = rate_of (λ r. r.learning_updated) train in
        let reasons = reasons_against stage train_rate validation_rate budget_rate learning_rate in
        sealed (record {
          format = promotion_format;
          curriculum_id = curriculum.curriculum_id;
          stage_index = stage.index;
          stage_name = stage.name;
          previous_checkpoint_sha256 = previous;
          train_task_ids = stage.train_task_ids;
          validation_task_ids = stage.validation_task_ids;
          train_admission_rate = train_rate;
          validation_admission_rate = validation_rate;
          budget_exhaustion_rate = budget_rate;
          train_learning_update_rate = learning_rate;
          promoted = is_nil reasons;
          reasons = reasons;
          checkpoint_sha256 = "";
        })

    unfoldable pub evaluate_stage :
        Curriculum
        → CurriculumStage
        → List EpisodeResult
        → List EpisodeResult
        → String
        → Result PromotionReceipt
    unfolding is_sha256
    evaluate_stage curriculum stage train_results validation_results previous = do
      require (any (λ s. same_stage stage s) curriculum.stages)
          (curriculum_error "stage is not part of curriculum")
      require (is_sha256 previous) (curriculum_error "must be 64 lowercase hex characters")
      train ← index_results train_results
      validation ← index_results validation_results
      require (same_set (ids train) stage.train_task_ids)
          (curriculum_error "train result set does not match curriculum stage")
      require (same_set (ids validation) stage.validation_task_ids)
          (curriculum_error "validation result set does not match curriculum stage")
      require (all (λ r. r.split == "train") train)
          (curriculum_error "non-train result supplied to train promotion evidence")
      require (all (λ r. r.split == "validation") validation)
          (curriculum_error "non-validation result supplied to validation promotion evidence")
      reject (any (λ r. r.learning_updated) validation)
          (curriculum_error "validation result attempted a learning update")
      ok (stage_receipt curriculum stage train validation previous)

-- `receipt is receipts[-1]`: the last one of the chain.
abbrev pub is_last : List PromotionReceipt → Bool
is_last [] = true
is_last (r ∷ rs) = false

module _ (platform : Platform) where
  unfoldable pub verify_receipts :
      String → String → List CurriculumStage → List PromotionReceipt → Result (Unit {0})
  verify_receipts curriculum_id previous [] receipts = ok tt
  verify_receipts curriculum_id previous (stage ∷ stages) [] = ok tt
  verify_receipts curriculum_id previous (stage ∷ stages) (r ∷ rs) =
      require (r.format == promotion_format) (value_error "unsupported promotion receipt format")
      >> (require (r.curriculum_id == curriculum_id)
            (value_error "promotion receipt curriculum mismatch")
          >> (require (eqb r.stage_index stage.index) (value_error "promotion stage index mismatch")
              >> (require (r.stage_name == stage.name) (value_error "promotion stage name mismatch")
                  >> (require (r.previous_checkpoint_sha256 == previous)
                        (value_error "promotion checkpoint predecessor mismatch")
                      >> (require (r.checkpoint_sha256 == sha256_json platform (payload r))
                            (value_error "promotion checkpoint hash mismatch")
                          >> (require (r.promoted || is_last rs)
                                (value_error "promotion chain continues after failed stage")
                              >> verify_receipts curriculum_id r.checkpoint_sha256 stages rs))))))

  -- verify_promotion_chain; `return False, reason` is a raise with the reason.
  unfoldable pub verify_promotion_chain : Curriculum → List PromotionReceipt → Result (Unit {0})
  verify_promotion_chain curriculum receipts =
      reject (ltb (length curriculum.stages) (length receipts))
        (value_error "promotion chain longer than curriculum")
      >> verify_receipts curriculum.curriculum_id zero_hash curriculum.stages receipts

module _ (arithmetic : Arithmetic) (platform : Platform)
    -- the train and the validation results of a stage: `gym.run` on its tasks
    (results : CurriculumStage → List EpisodeResult × List EpisodeResult)
    (curriculum : Curriculum) where
  -- The loop of `main` over the stages, which breaks at a receipt that does not promote.
  unfoldable pub promote : String → List CurriculumStage → Result (List PromotionReceipt)
  promote previous [] = ok []
  promote previous (stage ∷ stages) =
      let (train, validation) = results stage in
      evaluate_stage arithmetic platform curriculum stage train validation previous >>= λ receipt.
      elim receipt.promoted [
        | true ↦ promote receipt.checkpoint_sha256 stages >>= λ later. ok (receipt ∷ later)
        | false ↦ ok (receipt ∷ [])
      ]
