-- ===== src/Gym/Keeping.antt =====
-- What every party of `ReferenceGym.run` keeps of the state, the run keeps between its start and its
-- end, also where it raises.
use artifact_proof_lab.Base.{
  ℕ, zero, suc, ◌+◌, String, ◌≡◌, refl, ◌&&◌, Bool, inl, inr, Option, none, some, List, mem, ◌==◌,
  Option-cases,
}
use artifact_proof_lab.Base.Outcome.{crash, require}
use artifact_proof_lab.Base.Exec.{
  lift, Keeps, Keeps-pure, Keeps-lift, Keeps-try, Keeps-bind, Keeps-if,
}
use artifact_proof_lab.Platform.{Platform}
use artifact_proof_lab.Gym.Ledger.{root_sha256}
use artifact_proof_lab.Gym.Core.{
  DecisionKind, select, call_generative, defer_tie, defer_no_support, defer_no_admissible,
  TerminalReason, kind_value, PolicyDecision, Observation, AgentTaskView, PublicTask, EpisodeResult,
  Arithmetic, agent_view, view_to_dict,
}
use artifact_proof_lab.Gym.Budget.{Budget, rounds, reached, read_budget}
use artifact_proof_lab.Gym.Gateway.{
  HostSessionStart, HostGateway, Policy, Generator, LearningSink, ProofVerifier,
}
use artifact_proof_lab.Gym.Run
use artifact_proof_lab.Gym.Run.{
  Run, rejected, perform, on_select, generate_step, on_generative, act, round, loop, begin,
}
use artifact_proof_lab.Gym.Rounds.{loop_live, loop_ended}
use artifact_proof_lab.Gym.Finish.{semantic_valid, learn, admit, finish_as, run_session}

-- The parties keep `Fine`.
pub record Respects {S : Type 0} (Fine : S → Type 0) (host : HostGateway S) (policy : Policy S)
    (generator : Option (Generator S)) (sink : Option (LearningSink S)) : Type 0 where
  pub steps :
      (id action : String) (candidate : Option String) → Keeps Fine (host.step id action candidate)
  pub verdicts : (id : String) → Keeps Fine (host.semantic_verdict id)
  pub decides :
      (view : AgentTaskView) (os : List Observation) (trajectory : List String)
      → Keeps Fine (policy.decide view os trajectory)
  pub generates :
      (g : Generator S)
      → generator ≡ some g
      → (view : AgentTaskView) (os : List Observation) (attempt : ℕ)
      → Keeps Fine (g.generate view os attempt)
  pub updates :
      (to : LearningSink S)
      → sink ≡ some to
      → (result : EpisodeResult) → Keeps Fine (to.update result)

module _ (platform : Platform) (arithmetic : Arithmetic) {S : Type 0} (Fine : S → Type 0)
    (host : HostGateway S) (policy : Policy S) (generator : Option (Generator S))
    (sink : Option (LearningSink S)) (respects : Respects Fine host policy generator sink) where
  module _ (session_id : String) (view : AgentTaskView) (budget : Budget) where
    perform-Keeps :
        (hash action : String) (candidate : Option String) (r : Run)
        → Keeps Fine
            (perform platform arithmetic host session_id view budget hash action candidate r)
    unfolding perform
    perform-Keeps hash action candidate r =
        Keeps-bind _ _
          (Keeps-try _ rejected
            (Keeps-bind _ _ (respects.steps session_id action candidate) λ o. Keeps-pure (some o)))
          λ outcome. Keeps-pure _

    on_select-Keeps :
        (hash : String) (action : Option String) (r : Run)
        → Keeps Fine (on_select platform arithmetic host session_id view budget hash action r)
    unfolding on_select
    on_select-Keeps hash none r = Keeps-pure _
    on_select-Keeps hash (some action) r =
        Keeps-if (mem action view.allowed_actions) _ _ (perform-Keeps hash action none r)
          (Keeps-pure _)

    on_generative-Keeps :
        (g : Option (Generator S)) (hash : String) (r : Run)
        → generator ≡ g
        → Keeps Fine (on_generative platform arithmetic host session_id view budget g hash r)
    unfolding on_generative generate_step
    on_generative-Keeps none hash r e =
        Keeps-if (mem "CALL_GENERATIVE" view.allowed_actions) _ _ (Keeps-pure _) (Keeps-pure _)
    on_generative-Keeps (some g) hash r e =
        Keeps-if (mem "CALL_GENERATIVE" view.allowed_actions) _ _
          (Keeps-if (reached budget.max_generative r.generative_calls) _ _ (Keeps-pure _) (
            Keeps-bind _ _ (respects.generates g e view r.observations (r.generative_calls + 1))
              λ candidate. perform-Keeps hash "CALL_GENERATIVE" (some candidate) _))
          (Keeps-pure _)

    act-Keeps :
        (d : PolicyDecision) (r : Run)
        → Keeps Fine (act platform arithmetic host session_id view budget generator d r)
    unfolding act
    act-Keeps d r =
        let next = Run.decided platform arithmetic d r in
        by_kind d.kind next (root_sha256 next.ledger)
      where
        by_kind :
            (kind : DecisionKind) (next : Run) (hash : String)
            → Keeps Fine (elim kind [
              | select ↦
                  on_select platform arithmetic host session_id view budget hash d.action next
              | call_generative ↦
                  on_generative platform arithmetic host session_id view budget generator hash next
              | kind ↦
                  perform platform arithmetic host session_id view budget hash
                    (kind_value kind)
                    none
                    next
            ])
        by_kind select next hash = on_select-Keeps hash d.action next
        by_kind call_generative next hash = on_generative-Keeps generator hash next refl
        by_kind defer_tie next hash = perform-Keeps hash _ none next
        by_kind defer_no_support next hash = perform-Keeps hash _ none next
        by_kind defer_no_admissible next hash = perform-Keeps hash _ none next

    round-Keeps :
        (r : Run)
        → Keeps Fine (round platform arithmetic host session_id view budget policy generator r)
    unfolding round
    round-Keeps r =
        Keeps-if (reached budget.max_steps r.steps_taken) _ _ (Keeps-pure _)
          (Keeps-bind _ _ (respects.decides view r.observations r.trajectory) λ d. act-Keeps d r)

    pub loop-Keeps :
        (fuel : ℕ) (r : Run)
        → Keeps Fine (loop platform arithmetic host session_id view budget fuel policy generator r)
    loop-Keeps zero r = unfold loop in Keeps-pure r
    loop-Keeps (suc fuel) r = elim (Option-cases r.terminal_reason) [
      | inl live ↦
          rw
            (loop_live platform arithmetic host session_id view budget fuel policy generator r live)
            (Keeps-bind _ _ (round-Keeps r) λ next. loop-Keeps fuel next)
      | inr (reason, ended) ↦
          rw
            (loop_ended platform arithmetic host session_id view budget (suc fuel) policy generator
              r reason ended)
            (Keeps-pure r)
    ]

  learn-Keeps :
      (to : Option (LearningSink S)) (result : EpisodeResult)
      → sink ≡ to
      → Keeps Fine (learn to result)
  unfolding learn
  learn-Keeps none result e =
      Keeps-if (result.admission.admitted && result.split == "train") _ _ (Keeps-pure _)
        (Keeps-pure _)
  learn-Keeps (some to) result e =
      Keeps-if (result.admission.admitted && result.split == "train") _ _
        (Keeps-bind _ _ (respects.updates to e result) λ done. Keeps-pure _) (Keeps-pure _)

  pub semantic_valid-Keeps :
      (id : String) (reason : TerminalReason) (r : Run)
      → Keeps Fine (semantic_valid host id reason r)
  unfolding semantic_valid
  semantic_valid-Keeps id reason r = Keeps-if _ _ _ (respects.verdicts id) (Keeps-pure _)

  module _ (verifier : ProofVerifier) where
    pub admit-Keeps :
        (task : PublicTask) (reason : TerminalReason) (r : Run) (semantic : Bool)
        → Keeps Fine (admit platform arithmetic verifier task reason r semantic)
    unfolding admit
    admit-Keeps task reason r semantic = Keeps-bind _ _ (Keeps-lift _) λ proof. Keeps-pure _

    finish_as-Keeps :
        (id : String) (task : PublicTask) (r : Run) (reason : Option TerminalReason)
        → Keeps Fine (finish_as platform arithmetic verifier host id task sink r reason)
    unfolding finish_as
    finish_as-Keeps id task r none = Keeps-lift _
    finish_as-Keeps id task r (some reason) =
        Keeps-bind (semantic_valid host id reason r) _ (semantic_valid-Keeps id reason r)
          λ semantic.
            Keeps-bind (admit platform arithmetic verifier task reason r semantic) _
              (admit-Keeps task reason r semantic) λ result. learn-Keeps sink result refl

    pub run_session-Keeps :
        (task : PublicTask) (start : HostSessionStart)
        → Keeps Fine
            (run_session platform arithmetic verifier host task policy generator sink start)
    unfolding run_session
    run_session-Keeps task start =
        Keeps-bind (lift (agent_view task)) _ (Keeps-lift (agent_view task)) λ view.
          let same =
            require (arithmetic.equal (view_to_dict start.agent_task) (view_to_dict view))
              (crash "host returned an agent task surface inconsistent with the host descriptor") in
          Keeps-bind (lift same) _ (Keeps-lift same) λ checked.
            Keeps-bind (lift (read_budget arithmetic task.budget)) _
              (Keeps-lift (read_budget arithmetic task.budget))
              λ budget.
                let first =
                  begin platform arithmetic start.agent_task task budget start.observations in
                let fuel = suc (rounds budget.max_steps) in
                Keeps-bind
                  (loop platform arithmetic host start.session_id start.agent_task budget fuel
                    policy generator first)
                  _ (loop-Keeps start.session_id start.agent_task budget fuel first)
                  λ r. finish_as-Keeps start.session_id task r r.terminal_reason
