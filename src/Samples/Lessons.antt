-- ===== src/Samples/Lessons.antt =====
-- A curriculum of one stage, results of its tasks, and its receipt.
use artifact_proof_lab.Base.{◌≡◌, refl, true, List, [], ◌∷◌}
use artifact_proof_lab.Base.Int.{pos}
use artifact_proof_lab.Base.Outcome
use artifact_proof_lab.Base.Outcome.{Result, ok, raise}
use artifact_proof_lab.Json.{Json, Number, num, int, str, bool, arr, obj, get, items_of, fields_of}
use artifact_proof_lab.Gym.Ledger.{zero_hash}
use artifact_proof_lab.Gym.Core.{PublicTask, EpisodeResult}
use artifact_proof_lab.Gym.Curriculum.{
  CurriculumStage, Curriculum, fields_in, required_string, stage_list, stage_from_mapping,
  stage_index, string_tuple, rate, boolean, contiguous, curriculum_from_mapping,
}
use artifact_proof_lab.Gym.CurriculumLaws.{IsCurriculum, curriculum_from_mapping-IsCurriculum}
use artifact_proof_lab.Gym.Promotion.{
  PromotionReceipt, index_results, evaluate_stage, stage_receipt, promote, verify_promotion_chain,
}
use artifact_proof_lab.Gym.PromotionLaws.{
  IsSealed, IsEvaluation, evaluate_stage-IsEvaluation, promote-verified,
}
use artifact_proof_lab.Gym.Registry.{see_stages, see_tasks, find_task, validate_curriculum_tasks}
use artifact_proof_lab.Gym.RegistryLaws.{IsRegistered, validate_curriculum_tasks-IsRegistered}
use artifact_proof_lab.Samples.{platform}
use artifact_proof_lab.Samples.Runs.{arithmetic, task, no_result}

abbrev one : Json Number
one = num (int (pos 1))

abbrev stage_json : Json Number
stage_json = obj (
    fields_of (
      ("index", num (int (pos 0)))
      ∷ ("name", str "doors")
      ∷ ("train_task_ids", arr (items_of (str "door" ∷ [])))
      ∷ ("validation_task_ids", arr (items_of (str "gate" ∷ [])))
      ∷ ("required_skill_targets", arr (items_of (str "open" ∷ [])))
      ∷ ("min_train_admission_rate", one)
      ∷ ("min_validation_admission_rate", one)
      ∷ ("max_budget_exhaustion_rate", one)
      ∷ ("require_train_learning_updates", bool true)
      ∷ []))

abbrev curriculum_json : Json Number
curriculum_json = obj (
    fields_of (
      ("format", str "proof-gym-curriculum-v1")
      ∷ ("curriculum_id", str "rooms")
      ∷ ("stages", arr (items_of (stage_json ∷ [])))
      ∷ []))

abbrev stage : CurriculumStage
stage = record {
  index = 0;
  name = "doors";
  train_task_ids = "door" ∷ [];
  validation_task_ids = "gate" ∷ [];
  required_skill_targets = "open" ∷ [];
  min_train_admission_rate = "1.0";
  min_validation_admission_rate = "1.0";
  max_budget_exhaustion_rate = "1.0";
  require_train_learning_updates = true;
}

abbrev curriculum : Curriculum
curriculum = record { curriculum_id = "rooms"; stages = stage ∷ [] }

parsed : curriculum_from_mapping arithmetic curriculum_json ≡ ok curriculum
unfolding curriculum_from_mapping Outcome.◌>>=◌ get fields_in required_string stage_list
    Outcome.traverse stage_from_mapping stage_index string_tuple rate boolean contiguous
parsed = refl

curriculum_from_mapping-IsCurriculum_example : IsCurriculum arithmetic curriculum
curriculum_from_mapping-IsCurriculum_example =
    curriculum_from_mapping-IsCurriculum arithmetic curriculum_json curriculum parsed

abbrev train_results : List EpisodeResult
train_results = record no_result { task_id = "door"; split = "train"; learning_updated = true } ∷ []

abbrev validation_results : List EpisodeResult
validation_results = record no_result { task_id = "gate"; split = "validation" } ∷ []

abbrev receipt : PromotionReceipt
receipt =
    stage_receipt arithmetic platform curriculum stage train_results validation_results zero_hash

evaluated :
    evaluate_stage arithmetic platform curriculum stage train_results validation_results zero_hash
    ≡ ok receipt
unfolding evaluate_stage Outcome.◌>>=◌ index_results
evaluated = refl

evaluate_stage-IsEvaluation_example :
    IsSealed arithmetic platform curriculum stage zero_hash receipt
    × IsEvaluation arithmetic platform stage train_results validation_results receipt
evaluate_stage-IsEvaluation_example =
    evaluate_stage-IsEvaluation arithmetic platform curriculum stage train_results
      validation_results zero_hash receipt evaluated

abbrev results : CurriculumStage → List EpisodeResult × List EpisodeResult
results s = (train_results, validation_results)

promoted :
    promote arithmetic platform results curriculum zero_hash curriculum.stages ≡ ok (receipt ∷ [])
unfolding promote evaluate_stage stage_receipt Outcome.◌>>=◌ index_results
promoted = refl

promote-verified_example : verify_promotion_chain platform curriculum (receipt ∷ []) ≡ ok tt
promote-verified_example =
    promote-verified arithmetic platform results curriculum (receipt ∷ []) promoted

abbrev registry : List PublicTask
registry =
    record task { skill_targets = "open" ∷ [] }
    ∷ record task { task_id = "gate"; split = "validation" }
    ∷ []

registered : validate_curriculum_tasks registry curriculum ≡ ok tt
unfolding validate_curriculum_tasks Outcome.◌>>=◌ see_stages see_tasks find_task
registered = refl

validate_curriculum_tasks-IsRegistered_example : IsRegistered registry curriculum
validate_curriculum_tasks-IsRegistered_example =
    validate_curriculum_tasks-IsRegistered registry curriculum registered
