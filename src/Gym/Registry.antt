-- ===== src/Gym/Registry.antt =====
-- `validate_curriculum_tasks` of gym/curriculum.py. The names that it has seen are kept in lists.
use artifact_proof_lab.Base.{
  String, Bool, List, [], ◌∷◌, ◌++◌, map, all, any, mem, ◌==◌, if◌then◌else◌,
}
use artifact_proof_lab.Base.Pairs.{is_set}
use artifact_proof_lab.Base.Outcome.{
  curriculum_error, Result, ok, raise, require, reject, ◌>>=◌, ◌>>◌,
}
use artifact_proof_lab.Gym.Core.{PublicTask}
use artifact_proof_lab.Gym.Curriculum.{CurriculumStage, Curriculum}

abbrev pub same_text : String → String → Bool
same_text s t = s == t

-- _task
unfoldable pub find_task : String → List PublicTask → Result PublicTask
find_task id [] = raise (curriculum_error "curriculum references unknown task")
find_task id (t ∷ ts) = let rest = find_task id ts in if t.task_id == id then ok t else rest

-- What the loop has seen: the tasks so far, and the skills of the stage.
pub record Seen : Type 0 where
  pub tasks : List String
  pub skills : List String

module _ (tasks : List PublicTask) (split : String) where
  -- The loop over the tasks of one split.
  unfoldable pub see_tasks : List String → Seen → Result Seen
  see_tasks [] seen = ok seen
  see_tasks (id ∷ ids) seen = do
    task ← find_task id tasks
    require (task.split == split) (curriculum_error "curriculum task has another split")
    reject (mem id seen.tasks) (curriculum_error "task reused across curriculum stages")
    see_tasks ids (record { tasks = id ∷ seen.tasks; skills = task.skill_targets ++ seen.skills })

module _ (tasks : List PublicTask) where
  -- The loop over the stages: the train and the validation tasks seen so far.
  unfoldable pub see_stages :
      List CurriculumStage → List String → List String → Result (List String × List String)
  see_stages [] train validation = ok (train, validation)
  see_stages (stage ∷ stages) train validation =
      see_tasks tasks "train" stage.train_task_ids (record { tasks = train; skills = [] })
      >>= λ trained.
          see_tasks tasks "validation" stage.validation_task_ids
            (record { tasks = validation; skills = trained.skills })
          >>= λ validated.
              require (all (λ skill. mem skill validated.skills) stage.required_skill_targets)
                (curriculum_error "stage missing required skill coverage")
              >> see_stages stages trained.tasks validated.tasks

  unfoldable pub validate_curriculum_tasks : Curriculum → Result (Unit {0})
  unfolding is_set
  validate_curriculum_tasks curriculum =
      require (is_set same_text (map (λ t. t.task_id) tasks))
        (curriculum_error "task registry contains duplicate task_id")
      >> (see_stages curriculum.stages [] [] >>= λ seen.
          reject (any (λ id. mem id seen.1) seen.0)
            (curriculum_error "task cannot be both train and validation in curriculum"))
