-- ===== src/Gym/PromotionLaws.antt =====
-- What a promotion receipt of gym/curriculum.py says, and the chains that are accepted.
use artifact_proof_lab.Base.{
  ◌≤◌, String, ◌≡◌, ◌≢◌, ◌↔◌, refl, ap, ◌∙◌, subst, Bool, true, false, ◌&&◌, ◌||◌, List, [], ◌∷◌,
  ◌++◌, any, length, ltb, eqb_iff, eq_iff, arith,
}
use artifact_proof_lab.Base.Pairs.{is_set, is_set_iff, Pairwise}
use artifact_proof_lab.Base.Outcome.{
  ok, ◌>>=◌, reject-ok, >>=-eq-ok, Ensures, holds, Ensures-bind, Ensures-map, Ensures-require,
  Ensures-reject, Ensures-ok, ok-injective,
}
use artifact_proof_lab.Platform.{Platform}
use artifact_proof_lab.Gym.Canonical.{sha256_json}
use artifact_proof_lab.Gym.Ledger.{zero_hash}
use artifact_proof_lab.Gym.Core.{EpisodeResult, accepted, Arithmetic}
use artifact_proof_lab.Gym.Curriculum.{CurriculumStage, Curriculum, same_set}
use artifact_proof_lab.Gym.Promotion.{
  promotion_format, PromotionReceipt, payload, ids, same_text, filled_results, is_nil, reason_if,
  index_results, rate_of, reasons_against, stage_receipt, evaluate_stage, is_last, verify_receipts,
  verify_promotion_chain, promote,
}

filled_results-eq :
    (rs : List EpisodeResult) → Ensures (λ items. (items ≡ rs) × (rs ≢ [])) (filled_results rs)
filled_results-eq [] = Ensures.raised
filled_results-eq (r ∷ rs) = holds (refl, λ e. cc)

index_results-eq :
    (rs : List EpisodeResult)
    → Ensures
        (λ items. (items ≡ rs) × (rs ≢ []) × Pairwise (λ a b. a ≢ b) (ids rs))
        (index_results rs)
unfolding index_results
index_results-eq rs = Ensures-bind (Ensures-require (is_set same_text (ids rs)) _) λ passed set.
    Ensures-map
      (λ items (same, filled). (same, filled, (is_set_iff same_text eq_iff (ids rs)).0 set))
      (filled_results-eq rs)

no_reasons :
    (a b c d : Bool) (ra rb rc rd : String)
    → (is_nil (reason_if a ra ++ (reason_if b rb ++ (reason_if c rc ++ reason_if d rd))) ≡ true)
      ↔ ((a ≡ false) × (b ≡ false) × (c ≡ false) × (d ≡ false))
no_reasons true b c d ra rb rc rd = (λ h. cc, λ h. cc)
no_reasons false true c d ra rb rc rd = (λ h. cc, λ h. cc)
no_reasons false false true d ra rb rc rd = (λ h. cc, λ h. cc)
no_reasons false false false true ra rb rc rd = (λ h. cc, λ h. cc)
no_reasons false false false false ra rb rc rd = (λ h. (refl, refl, refl, refl), λ h. refl)

last_goes : (promoted : Bool) → (promoted || is_last []) ≡ true
last_goes true = refl
last_goes false = refl

module _ (arithmetic : Arithmetic) (platform : Platform) where
  -- The thresholds of a stage, on the four rates of a receipt.
  abbrev pub Reaches : CurriculumStage → PromotionReceipt → Type 0
  Reaches stage r =
      (arithmetic.exceeds stage.min_train_admission_rate r.train_admission_rate ≡ false)
      × (arithmetic.exceeds stage.min_validation_admission_rate r.validation_admission_rate ≡ false)
      × (arithmetic.exceeds r.budget_exhaustion_rate stage.max_budget_exhaustion_rate ≡ false)
      × (stage.require_train_learning_updates
            && arithmetic.exceeds r.train_admission_rate r.train_learning_update_rate
          ≡ false)

  -- The receipt binds the stage, its predecessor and its own payload.
  pub record IsSealed (curriculum : Curriculum) (stage : CurriculumStage) (previous : String)
      (r : PromotionReceipt) : Type 0 where
    pub format : r.format ≡ promotion_format
    pub curriculum_id : r.curriculum_id ≡ curriculum.curriculum_id
    pub stage_index : r.stage_index ≡ stage.index
    pub stage_name : r.stage_name ≡ stage.name
    pub predecessor : r.previous_checkpoint_sha256 ≡ previous
    pub checkpoint : r.checkpoint_sha256 ≡ sha256_json platform (payload r)

  -- The rates are those of the results, which are of the stage's tasks, and fit the verdict.
  pub record IsEvaluation (stage : CurriculumStage) (train validation : List EpisodeResult)
      (r : PromotionReceipt) : Type 0 where
    pub train_tasks : same_set (ids train) stage.train_task_ids ≡ true
    pub validation_tasks : same_set (ids validation) stage.validation_task_ids ≡ true
    pub train_once : Pairwise (λ a b. a ≢ b) (ids train)
    pub validation_once : Pairwise (λ a b. a ≢ b) (ids validation)
    pub unlearned : any (λ v. v.learning_updated) validation ≡ false
    pub train_rate : r.train_admission_rate ≡ rate_of arithmetic accepted train
    pub validation_rate : r.validation_admission_rate ≡ rate_of arithmetic accepted validation
    pub verdict : (r.promoted ≡ true) ↔ Reaches stage r

  stage_receipt-IsSealed :
      (curriculum : Curriculum) (stage : CurriculumStage) (train validation : List EpisodeResult)
      (previous : String)
      → IsSealed curriculum stage previous
          (stage_receipt arithmetic platform curriculum stage train validation previous)
  unfolding stage_receipt payload
  stage_receipt-IsSealed curriculum stage train validation previous = record {
    format = refl;
    curriculum_id = refl;
    stage_index = refl;
    stage_name = refl;
    predecessor = refl;
    checkpoint = refl;
  }

  stage_receipt-verdict :
      (curriculum : Curriculum) (stage : CurriculumStage) (train validation : List EpisodeResult)
      (previous : String)
      → let r = stage_receipt arithmetic platform curriculum stage train validation previous in
        (r.promoted ≡ true) ↔ Reaches stage r
  unfolding stage_receipt reasons_against
  stage_receipt-verdict curriculum stage train validation previous =
      let train_rate = rate_of arithmetic accepted train in
      let validation_rate = rate_of arithmetic accepted validation in
      no_reasons (arithmetic.exceeds stage.min_train_admission_rate train_rate)
        (arithmetic.exceeds stage.min_validation_admission_rate validation_rate)
        (arithmetic.exceeds (rate_of arithmetic (λ r. r.budget_exhausted) (train ++ validation))
          stage.max_budget_exhaustion_rate)
        (stage.require_train_learning_updates
          && arithmetic.exceeds train_rate (rate_of arithmetic (λ r. r.learning_updated) train))
        _ _ _ _

  stage_receipt-rates :
      (curriculum : Curriculum) (stage : CurriculumStage) (train validation : List EpisodeResult)
      (previous : String)
      → let r = stage_receipt arithmetic platform curriculum stage train validation previous in
        (r.train_admission_rate ≡ rate_of arithmetic accepted train)
        × (r.validation_admission_rate ≡ rate_of arithmetic accepted validation)
  unfolding stage_receipt
  stage_receipt-rates curriculum stage train validation previous = (refl, refl)

  evaluate_stage-Ensures :
      (curriculum : Curriculum) (stage : CurriculumStage) (train validation : List EpisodeResult)
      (previous : String)
      → Ensures
          (λ r. IsSealed curriculum stage previous r × IsEvaluation stage train validation r)
          (evaluate_stage arithmetic platform curriculum stage train validation previous)
  unfolding evaluate_stage
  evaluate_stage-Ensures curriculum stage train validation previous =
      Ensures-bind (Ensures-require _ _) λ a member. Ensures-bind (Ensures-require _ _) λ b digest.
        Ensures-bind (index_results-eq train) λ ts (same_ts, filled_ts, once_ts).
          Ensures-bind (index_results-eq validation) λ vs (same_vs, filled_vs, once_vs).
            Ensures-bind (Ensures-require _ _) λ c own_ts.
              Ensures-bind (Ensures-require _ _) λ d own_vs.
                Ensures-bind (Ensures-require _ _) λ e split_ts.
                  Ensures-bind (Ensures-require _ _) λ f split_vs.
                    Ensures-bind (Ensures-reject _ _) λ g unlearned.
                      let (train_rate, validation_rate) =
                        stage_receipt-rates curriculum stage ts vs previous in
                      let r = stage_receipt arithmetic platform curriculum stage ts vs previous in
                      holds (
                        stage_receipt-IsSealed curriculum stage ts vs previous,
                        record {
                          train_tasks =
                              subst (λ xs. same_set (ids xs) stage.train_task_ids ≡ true) same_ts
                                own_ts;
                          validation_tasks =
                              subst (λ xs. same_set (ids xs) stage.validation_task_ids ≡ true)
                                same_vs own_vs;
                          train_once = once_ts;
                          validation_once = once_vs;
                          unlearned =
                              subst (λ xs. any (λ v. v.learning_updated) xs ≡ false) same_vs
                                unlearned;
                          train_rate =
                              train_rate ∙ ap (λ xs. rate_of arithmetic accepted xs) same_ts;
                          validation_rate =
                              validation_rate ∙ ap (λ xs. rate_of arithmetic accepted xs) same_vs;
                          verdict = stage_receipt-verdict curriculum stage ts vs previous;
                        },
                      )

  -- A receipt of an evaluation is made for the stage and its predecessor, carries the hash of its
  -- payload, comes from results of distinct tasks, which are those of the stage, with no learning on
  -- validation, has their rates of admission, and promotes exactly when it reaches the thresholds of
  -- the stage.
  pub evaluate_stage-IsEvaluation :
      (curriculum : Curriculum) (stage : CurriculumStage) (train validation : List EpisodeResult)
      (previous : String) (r : PromotionReceipt)
      → evaluate_stage arithmetic platform curriculum stage train validation previous ≡ ok r
      → IsSealed curriculum stage previous r × IsEvaluation stage train validation r
  evaluate_stage-IsEvaluation curriculum stage train validation previous r e =
      Ensures-ok (evaluate_stage-Ensures curriculum stage train validation previous) e

  verify_receipts-cons :
      (curriculum : Curriculum) (stage : CurriculumStage) (previous : String) (r : PromotionReceipt)
      (stages : List CurriculumStage) (rs : List PromotionReceipt)
      → IsSealed curriculum stage previous r
      → (r.promoted || is_last rs) ≡ true
      → verify_receipts platform curriculum.curriculum_id r.checkpoint_sha256 stages rs ≡ ok tt
      → verify_receipts platform curriculum.curriculum_id previous (stage ∷ stages) (r ∷ rs) ≡ ok tt
  unfolding verify_receipts ◌>>=◌
  verify_receipts-cons curriculum stage previous r stages rs seal goes rest =
      rw
        (
          (eq_iff r.format promotion_format).1 seal.format,
          (eq_iff r.curriculum_id curriculum.curriculum_id).1 seal.curriculum_id,
          (eqb_iff r.stage_index stage.index).1 seal.stage_index,
          (eq_iff r.stage_name stage.name).1 seal.stage_name,
          (eq_iff r.previous_checkpoint_sha256 previous).1 seal.predecessor,
          (eq_iff r.checkpoint_sha256 (sha256_json platform (payload r))).1 seal.checkpoint,
          goes,
        )
        rest

  module _ (results : CurriculumStage → List EpisodeResult × List EpisodeResult)
      (curriculum : Curriculum) where
    -- Receipts that are accepted in order, no more than the stages.
    abbrev Chained : String → List CurriculumStage → List PromotionReceipt → Type 0
    Chained previous stages rs =
        (verify_receipts platform curriculum.curriculum_id previous stages rs ≡ ok tt)
        × (length rs ≤ length stages)

    stopped-Chained :
        (previous : String) (stage : CurriculumStage) (stages : List CurriculumStage)
        (r : PromotionReceipt)
        → IsSealed curriculum stage previous r
        → Chained previous (stage ∷ stages) (r ∷ [])
    stopped-Chained previous stage [] r seal = (
      verify_receipts-cons curriculum stage previous r [] [] seal (last_goes r.promoted)
          (unfold verify_receipts in refl),
      omega arith,
    )
    stopped-Chained previous stage (next ∷ stages) r seal = (
      verify_receipts-cons curriculum stage previous r (next ∷ stages) [] seal
          (last_goes r.promoted) (unfold verify_receipts in refl),
      omega arith,
    )

    nothing_left :
        (previous : String)
        → verify_receipts platform curriculum.curriculum_id previous [] [] ≡ ok tt
    unfolding verify_receipts
    nothing_left previous = refl

    promote-Chained :
        (previous : String) (stages : List CurriculumStage) (rs : List PromotionReceipt)
        → promote arithmetic platform results curriculum previous stages ≡ ok rs
        → Chained previous stages rs
    unfolding promote
    promote-Chained previous [] rs e =
        subst (λ xs. Chained previous [] xs) (ok-injective e) (nothing_left previous, omega arith)
    promote-Chained previous (stage ∷ stages) rs e =
        let (train, validation) = results stage in
        let (r, made, rest) =
          >>=-eq-ok (evaluate_stage arithmetic platform curriculum stage train validation previous)
            _ e in
        let seal =
          (evaluate_stage-IsEvaluation curriculum stage train validation previous r made).0 in
        go r rs r.promoted seal refl rest
          (λ later. promote-Chained r.checkpoint_sha256 stages later)
      where
        go :
            (r : PromotionReceipt) (rs : List PromotionReceipt) (promoted : Bool)
            → IsSealed curriculum stage previous r
            → r.promoted ≡ promoted
            → elim promoted [
              | true ↦
                  promote arithmetic platform results curriculum r.checkpoint_sha256 stages
                  >>= λ later. ok (r ∷ later)
              | false ↦ ok (r ∷ [])
            ]
              ≡ ok rs
            → ((later : List PromotionReceipt)
                → promote arithmetic platform results curriculum r.checkpoint_sha256 stages
                  ≡ ok later
                → Chained r.checkpoint_sha256 stages later)
            → Chained previous (stage ∷ stages) rs
        go r rs true seal on h ih =
            let (later, made, same) =
              >>=-eq-ok (promote arithmetic platform results curriculum r.checkpoint_sha256 stages)
                _ h in
            let (fine, short) = ih later made in
            subst (λ xs. Chained previous (stage ∷ stages) xs) (ok-injective same)
              (
                verify_receipts-cons curriculum stage previous r stages later seal
                    (ap (λ p. p || is_last later) on) fine,
                omega (arith, short),
              )
        go r rs false seal on h ih =
            subst (λ xs. Chained previous (stage ∷ stages) xs) (ok-injective h)
              (stopped-Chained previous stage stages r seal)

    -- The receipts that the loop over the stages makes, up to the first that does not promote or
    -- to the last stage, form a chain that is accepted.
    pub promote-verified :
        (rs : List PromotionReceipt)
        → promote arithmetic platform results curriculum zero_hash curriculum.stages ≡ ok rs
        → verify_promotion_chain platform curriculum rs ≡ ok tt
    unfolding verify_promotion_chain
    promote-verified rs e =
        let (fine, short) = promote-Chained zero_hash curriculum.stages rs e in
        let enough : ltb (length curriculum.stages) (length rs) ≡ false = ground (arith, short) in
        (reject-ok (ltb (length curriculum.stages) (length rs)) _ _ tt).1 (enough, fine)
