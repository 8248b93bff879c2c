-- ===== src/Gym/RegistryLaws.antt =====
-- What `validate_curriculum_tasks` of gym/curriculum.py accepts.
use artifact_proof_lab.Base.{
  String, ◌≡◌, ◌≢◌, subst, ◌⊎◌, Bool, true, false, List, [], ◌∷◌, ◌++◌, map, all, any, mem, All,
  All-map, All-append, Holds, Distinct, fresh-apart, mem-Holds, not-mem, ◌==◌, eq_iff, and_true,
  or_false, inl, inr,
}
use artifact_proof_lab.Base.Pairs.{is_set, is_set_iff, Pairwise, Pairwise-image}
use artifact_proof_lab.Base.Outcome.{
  ok, Ensures, holds, Ensures-bind, Ensures-map, Ensures-require, Ensures-reject, Ensures-ok,
  Ensures-all,
}
use artifact_proof_lab.Gym.Core.{PublicTask}
use artifact_proof_lab.Gym.Curriculum.{CurriculumStage, Curriculum}
use artifact_proof_lab.Gym.Registry.{
  same_text, find_task, Seen, see_tasks, see_stages, validate_curriculum_tasks,
}

Holds-append : (a : String) (xs ys : List String) → Holds a (xs ++ ys) → Holds a xs ⊎ Holds a ys
Holds-append a [] ys h = inr h
Holds-append a (x ∷ xs) ys (inl same) = inl (inl same)
Holds-append a (x ∷ xs) ys (inr later) = elim (Holds-append a xs ys later) [
  | inl left ↦ inl (inr left)
  | inr right ↦ inr right
]

Distinct-append :
    (xs ys : List String)
    → Distinct xs
    → Distinct ys
    → All (λ y. ¬ Holds y xs) ys
    → Distinct (xs ++ ys)
Distinct-append [] ys hx hy apart = hy
Distinct-append (x ∷ xs) ys hx hy apart =
    let (new, later) = fresh-apart x xs ys apart in
    (
      λ held. elim (Holds-append x xs ys held) [ inl old ↦ hx.0 old | inr late ↦ new late ],
      Distinct-append xs ys hx.1 hy later,
    )

old_only : {A : Type 0} → A ⊎ ⊥ → A
old_only (inl old) = old
old_only (inr nothing) = absurd nothing

All-Holds : (P : String → Type 0) (a : String) (xs : List String) → All P xs → Holds a xs → P a
All-Holds P a [] h held = absurd held
All-Holds P a (x ∷ xs) h (inl same) = subst P same h.0
All-Holds P a (x ∷ xs) h (inr later) = All-Holds P a xs h.1 later

all-All : {A : Type 0} (p : A → Bool) (xs : List A) → all p xs ≡ true → All (λ x. p x ≡ true) xs
all-All p [] h = tt
all-All p (x ∷ xs) h =
    let (first, later) = and_true (p x) (all p xs) h in (first, all-All p xs later)

module _ (tasks : List PublicTask) where
  -- A task of the registry, of that split.
  abbrev pub Known : String → String → Type 0
  Known split id = (task : PublicTask) × (find_task id tasks ≡ ok task) × (task.split ≡ split)

  -- A skill of one of the tasks.
  abbrev pub Taught : String → List String → Type 0
  Taught skill [] = ⊥
  Taught skill (id ∷ ids) =
      ((task : PublicTask) × (find_task id tasks ≡ ok task) × Holds skill task.skill_targets)
      ⊎ Taught skill ids

  -- What the loop over the tasks of one split has checked, and what it leaves.
  record Sees (split : String) (ids : List String) (before after : Seen) : Type 0 where
    known : All (Known split) ids
    distinct : Distinct ids
    fresh : All (λ id. ¬ Holds id before.tasks) ids
    keeps : (a : String) → Holds a before.tasks ⊎ Holds a ids → Holds a after.tasks
    brings : (a : String) → Holds a after.tasks → Holds a before.tasks ⊎ Holds a ids
    skills :
        (skill : String) → Holds skill after.skills → Holds skill before.skills ⊎ Taught skill ids

  see_tasks-Sees :
      (split : String) (ids : List String) (before : Seen)
      → Ensures (Sees split ids before) (see_tasks tasks split ids before)
  unfolding see_tasks
  see_tasks-Sees split [] before = holds (record {
    known = tt;
    distinct = tt;
    fresh = tt;
    keeps = λ a h. old_only h;
    brings = λ a h. inl h;
    skills = λ skill h. inl h;
  })
  see_tasks-Sees split (id ∷ ids) before =
      Ensures-bind (Ensures-all {P = λ task. find_task id tasks ≡ ok task} λ task e. e)
        λ task found. Ensures-bind (Ensures-require (task.split == split) _) λ a right.
          Ensures-bind (Ensures-reject (mem id before.tasks) _) λ b new.
            Ensures-map
              (λ after sees.
                let (apart, fresh) = fresh-apart id before.tasks ids sees.fresh in
                record {
                  known = ((task, found, (eq_iff task.split split).0 right), sees.known);
                  distinct = (apart, sees.distinct);
                  fresh = (not-mem id before.tasks new, fresh);
                  keeps = λ a h. sees.keeps a (moved_in a h);
                  brings = λ a h. moved_out a (sees.brings a h);
                  skills = λ skill h. taught task found skill (sees.skills skill h);
                })
              (see_tasks-Sees split ids (record {
                tasks = id ∷ before.tasks;
                skills = task.skill_targets ++ before.skills;
              }))
    where
      moved_in :
          (a : String)
          → Holds a before.tasks ⊎ Holds a (id ∷ ids)
          → Holds a (id ∷ before.tasks) ⊎ Holds a ids
      moved_in a (inl old) = inl (inr old)
      moved_in a (inr (inl same)) = inl (inl same)
      moved_in a (inr (inr later)) = inr later

      moved_out :
          (a : String)
          → Holds a (id ∷ before.tasks) ⊎ Holds a ids
          → Holds a before.tasks ⊎ Holds a (id ∷ ids)
      moved_out a (inl (inl same)) = inr (inl same)
      moved_out a (inl (inr old)) = inl old
      moved_out a (inr later) = inr (inr later)

      taught :
          (task : PublicTask)
          → find_task id tasks ≡ ok task
          → (skill : String) → Holds skill (task.skill_targets ++ before.skills) ⊎ Taught skill ids
          → Holds skill before.skills ⊎ Taught skill (id ∷ ids)
      taught task found skill (inr later) = inr (inr later)
      taught task found skill (inl h) =
          elim (Holds-append skill task.skill_targets before.skills h) [
            | inl own ↦ inr (inl (task, found, own))
            | inr old ↦ inl old
          ]

  abbrev pub all_train : List CurriculumStage → List String
  all_train [] = []
  all_train (stage ∷ stages) = stage.train_task_ids ++ all_train stages

  abbrev pub all_validation : List CurriculumStage → List String
  all_validation [] = []
  all_validation (stage ∷ stages) = stage.validation_task_ids ++ all_validation stages

  -- The tasks of a stage are known, and teach its skills.
  pub record IsCovered (stage : CurriculumStage) : Type 0 where
    pub train : All (Known "train") stage.train_task_ids
    pub validation : All (Known "validation") stage.validation_task_ids
    pub skills :
        All
          (λ skill. Taught skill stage.validation_task_ids ⊎ Taught skill stage.train_task_ids)
          stage.required_skill_targets

  -- What the loop over the stages has checked, and what it leaves.
  record Visits (stages : List CurriculumStage) (train validation : List String)
      (after : List String × List String) : Type 0 where
    covered : All IsCovered stages
    train_once : Distinct (all_train stages)
    validation_once : Distinct (all_validation stages)
    train_fresh : All (λ id. ¬ Holds id train) (all_train stages)
    validation_fresh : All (λ id. ¬ Holds id validation) (all_validation stages)
    keeps_train : (a : String) → Holds a train ⊎ Holds a (all_train stages) → Holds a after.0
    keeps_validation :
        (a : String) → Holds a validation ⊎ Holds a (all_validation stages) → Holds a after.1

  -- Lists of names seen one after the other.
  record Joins (old ids middle later : List String) : Type 0 where
    once : Distinct (ids ++ later)
    fresh : All (λ id. ¬ Holds id old) (ids ++ later)
    held : (a : String) → Holds a old ⊎ Holds a (ids ++ later) → Holds a middle ⊎ Holds a later

  join :
      (old ids middle later : List String)
      → Distinct ids
      → All (λ id. ¬ Holds id old) ids
      → ((a : String) → Holds a old ⊎ Holds a ids → Holds a middle)
      → Distinct later
      → All (λ id. ¬ Holds id middle) later
      → Joins old ids middle later
  join old ids middle later distinct new keeps once fresh = record {
    once =
        Distinct-append ids later distinct once
          (All-map later (λ y apart held. apart (keeps y (inr held))) fresh);
    fresh =
        All-append (λ id. ¬ Holds id old) ids later new
          (All-map later (λ y apart held. apart (keeps y (inl held))) fresh);
    held = λ a h. by_place a h;
  }
    where
      by_place :
          (a : String) → Holds a old ⊎ Holds a (ids ++ later) → Holds a middle ⊎ Holds a later
      by_place a (inl h) = inl (keeps a (inl h))
      by_place a (inr h) = elim (Holds-append a ids later h) [
        | inl own ↦ inl (keeps a (inr own))
        | inr late ↦ inr late
      ]

  skills-Taught :
      (stage : CurriculumStage) (skills : List String)
      → ((skill : String)
          → Holds skill skills
          → Taught skill stage.validation_task_ids ⊎ Taught skill stage.train_task_ids)
      → (required : List String) → all (λ skill. mem skill skills) required ≡ true
      → All
          (λ skill. Taught skill stage.validation_task_ids ⊎ Taught skill stage.train_task_ids)
          required
  skills-Taught stage skills taught [] h = tt
  skills-Taught stage skills taught (skill ∷ required) h =
      let (first, later) = and_true (mem skill skills) (all (λ s. mem s skills) required) h in
      (
        taught skill (mem-Holds skill skills first),
        skills-Taught stage skills taught required later,
      )

  see_stages-Visits :
      (stages : List CurriculumStage) (train validation : List String)
      → Ensures (Visits stages train validation) (see_stages tasks stages train validation)
  unfolding see_stages
  see_stages-Visits [] train validation = holds (record {
    covered = tt;
    train_once = tt;
    validation_once = tt;
    train_fresh = tt;
    validation_fresh = tt;
    keeps_train = λ a h. old_only h;
    keeps_validation = λ a h. old_only h;
  })
  see_stages-Visits (stage ∷ stages) train validation =
      Ensures-bind
        (see_tasks-Sees "train" stage.train_task_ids (record { tasks = train; skills = [] }))
        λ trained t.
          Ensures-bind
            (see_tasks-Sees "validation" stage.validation_task_ids
              (record { tasks = validation; skills = trained.skills }))
            λ validated v.
              Ensures-bind
                (Ensures-require
                  (all (λ skill. mem skill validated.skills) stage.required_skill_targets) _)
                λ a enough.
                  Ensures-map
                    (λ after rest.
                      let jt =
                        join train stage.train_task_ids trained.tasks (all_train stages) t.distinct
                          t.fresh t.keeps rest.train_once rest.train_fresh in
                      let jv =
                        join validation stage.validation_task_ids validated.tasks
                          (all_validation stages) v.distinct v.fresh v.keeps rest.validation_once
                          rest.validation_fresh in
                      record {
                        covered = (
                          record {
                            train = t.known;
                            validation = v.known;
                            skills =
                                skills-Taught stage validated.skills
                                  (λ skill h. from_train trained t skill (v.skills skill h))
                                  stage.required_skill_targets enough;
                          },
                          rest.covered,
                        );
                        train_once = jt.once;
                        validation_once = jv.once;
                        train_fresh = jt.fresh;
                        validation_fresh = jv.fresh;
                        keeps_train = λ a h. rest.keeps_train a (jt.held a h);
                        keeps_validation = λ a h. rest.keeps_validation a (jv.held a h);
                      })
                    (see_stages-Visits stages trained.tasks validated.tasks)
    where
      from_train :
          (trained : Seen)
          → Sees "train" stage.train_task_ids (record { tasks = train; skills = [] }) trained
          → (skill : String) → Holds skill trained.skills ⊎ Taught skill stage.validation_task_ids
          → Taught skill stage.validation_task_ids ⊎ Taught skill stage.train_task_ids
      from_train trained t skill (inr own) = inl own
      from_train trained t skill (inl h) = elim (t.skills skill h) [
        | inl nothing ↦ absurd nothing
        | inr own ↦ inr own
      ]

  any-none : (xs ys : List String) → any (λ id. mem id ys) xs ≡ false → All (λ id. ¬ Holds id ys) xs
  any-none [] ys h = tt
  any-none (x ∷ xs) ys h =
      let (first, later) = or_false (mem x ys) (any (λ id. mem id ys) xs) h in
      (not-mem x ys first, any-none xs ys later)

  -- Every stage of the curriculum is covered, and no task is used twice.
  pub record IsRegistered (curriculum : Curriculum) : Type 0 where
    pub registry : Pairwise (λ a b. a.task_id ≢ b.task_id) tasks
    pub covered : All IsCovered curriculum.stages
    pub train_once : Distinct (all_train curriculum.stages)
    pub validation_once : Distinct (all_validation curriculum.stages)
    pub apart :
        (id : String)
        → Holds id (all_train curriculum.stages)
        → ¬ Holds id (all_validation curriculum.stages)

  validate-Ensures :
      (curriculum : Curriculum)
      → Ensures (λ done. IsRegistered curriculum) (validate_curriculum_tasks tasks curriculum)
  unfolding validate_curriculum_tasks
  validate-Ensures curriculum =
      Ensures-bind (Ensures-require (is_set same_text (map (λ t. t.task_id) tasks)) _) λ a set.
        Ensures-bind (see_stages-Visits curriculum.stages [] []) λ seen visits.
          Ensures-map
            (λ done disjoint. record {
              registry =
                  (Pairwise-image (λ (t : PublicTask). t.task_id) ◌≢◌ tasks).0
                    ((is_set_iff same_text eq_iff (map (λ t. t.task_id) tasks)).0 set);
              covered = visits.covered;
              train_once = visits.train_once;
              validation_once = visits.validation_once;
              apart = λ id train validation.
                  All-Holds (λ a. ¬ Holds a seen.1) id seen.0 (any-none seen.0 seen.1 disjoint)
                    (visits.keeps_train id (inr train))
                    (visits.keeps_validation id (inr validation));
            })
            (Ensures-reject (any (λ id. mem id seen.1) seen.0) _)

  -- A curriculum that is accepted for a registry: its tasks have distinct identifiers, each stage
  -- names train and validation tasks of the registry with that split, which teach the skills that the
  -- stage requires, and over all the stages no task stands twice, nor in both splits.
  pub validate_curriculum_tasks-IsRegistered :
      (curriculum : Curriculum)
      → validate_curriculum_tasks tasks curriculum ≡ ok tt
      → IsRegistered curriculum
  validate_curriculum_tasks-IsRegistered curriculum e = Ensures-ok (validate-Ensures curriculum) e
