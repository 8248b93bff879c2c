-- ===== src/Gym/Rounds.antt =====
-- The rounds of `ReferenceGym.run` keep the invariant, and the loop ends for a reason.
use artifact_proof_lab.Base.{
  ℕ, zero, suc, ◌+◌, ◌<◌, String, ◌≡◌, refl, ap, subst, inl, inr, Option, none, some, mem,
  Option-cases,
}
use artifact_proof_lab.Base.Exec.{
  Exec, pure, try_except, ◌>>=◌, Triple, Triple-bind, Triple-pure, Triple-if, Triple-any,
  Triple-given,
}
use artifact_proof_lab.Json.{Number, Fields}
use artifact_proof_lab.Platform.{Platform}
use artifact_proof_lab.Gym.Ledger.{root_sha256}
use artifact_proof_lab.Gym.Core.{
  DecisionKind, select, call_generative, defer_tie, defer_no_support, defer_no_admissible,
  TerminalReason, kind_value, invalid_policy_action, action_unsupported, generator_unavailable,
  generative_budget_exhausted, step_budget_exhausted, PolicyDecision, AgentTaskView, StepOutcome,
  Arithmetic,
}
use artifact_proof_lab.Gym.Budget.{Budget, rounds, reached}
use artifact_proof_lab.Gym.Gateway.{HostGateway, Policy, Generator}
use artifact_proof_lab.Gym.Run
use artifact_proof_lab.Gym.Run.{
  Run, stop, exhaust, rejected, after_step, perform, on_select, generate_step, on_generative, act,
  round, loop, unless_ended, settled,
}
use artifact_proof_lab.Gym.Invariant.{
  IsAt, IsRun, reached_iff, stop-IsRun, exhaust-IsRun, decided-IsAt, acted-IsAt, settled-IsRun,
  candidate-IsAt,
}

-- Whatever the state, a result of the method has `Q`.
abbrev pub Yields : {S A : Type 0} → (A → Type 0) → Exec S A → Type 0
Yields Q method = Triple (λ s. Unit {0}) method (λ a s. Q a)

module _ (platform : Platform) (arithmetic : Arithmetic) {S : Type 0} (host : HostGateway S)
    (session_id : String) (view : AgentTaskView) (budget : Budget) where
  abbrev looped : ℕ → Policy S → Option (Generator S) → Run → Exec S Run
  looped fuel policy generator r =
      round platform arithmetic host session_id view budget policy generator r >>= λ next.
      loop platform arithmetic host session_id view budget fuel policy generator next

  pub loop_live :
      (fuel : ℕ) (policy : Policy S) (generator : Option (Generator S)) (r : Run)
      → r.terminal_reason ≡ none
      → loop platform arithmetic host session_id view budget (suc fuel) policy generator r
        ≡ looped fuel policy generator r
  unfolding loop
  loop_live fuel policy generator r live =
      ap
        (λ t.
          unless_ended platform arithmetic host session_id view budget t r
            (looped fuel policy generator r))
        live

  pub loop_ended :
      (fuel : ℕ) (policy : Policy S) (generator : Option (Generator S)) (r : Run)
      (reason : TerminalReason)
      → r.terminal_reason ≡ some reason
      → loop platform arithmetic host session_id view budget fuel policy generator r ≡ pure r
  unfolding loop
  loop_ended zero policy generator r reason ended = refl
  loop_ended (suc fuel) policy generator r reason ended =
      ap
        (λ t.
          unless_ended platform arithmetic host session_id view budget t r
            (looped fuel policy generator r))
        ended

module _ (platform : Platform) (arithmetic : Arithmetic) {S : Type 0} (host : HostGateway S)
    (session_id : String) (view : AgentTaskView) (budget : Budget) (opening : Fields Number) where
  live_after :
      (hash action : String) (candidate : Option String) (outcome : StepOutcome) (r : Run)
      → r.terminal_reason ≡ none
      → (Run.acted platform arithmetic hash action candidate outcome r).terminal_reason ≡ none
  unfolding Run.acted
  live_after hash action candidate outcome r live = live

  after_step-IsRun :
      (hash action : String) (candidate : Option String) (r : Run) (outcome : Option StepOutcome)
      → IsAt platform arithmetic budget opening (some hash) r
      → r.terminal_reason ≡ none
      → IsRun platform arithmetic budget opening (
          after_step platform arithmetic host session_id view budget hash action candidate r
            outcome)
  unfolding after_step
  after_step-IsRun hash action candidate r none at live =
      stop-IsRun platform arithmetic budget opening _ hash invalid_policy_action r at live refl refl
  after_step-IsRun hash action candidate r (some outcome) at live =
      settled-IsRun platform arithmetic budget opening outcome
        (Run.acted platform arithmetic hash action candidate outcome r)
        (acted-IsAt platform arithmetic budget opening hash action candidate outcome r at live)
        (live_after hash action candidate outcome r live)

  perform-IsRun :
      (hash action : String) (candidate : Option String) (r : Run)
      → IsAt platform arithmetic budget opening (some hash) r
      → r.terminal_reason ≡ none
      → Yields
          (IsRun platform arithmetic budget opening)
          (perform platform arithmetic host session_id view budget hash action candidate r)
  unfolding perform
  perform-IsRun hash action candidate r at live =
      Triple-bind
        (try_except (host.step session_id action candidate >>= λ o. pure (some o)) rejected) _
        (Triple-any _)
        λ outcome. Triple-pure _ λ s h. after_step-IsRun hash action candidate r outcome at live

  on_select-IsRun :
      (hash : String) (action : Option String) (r : Run)
      → IsAt platform arithmetic budget opening (some hash) r
      → r.terminal_reason ≡ none
      → Yields
          (IsRun platform arithmetic budget opening)
          (on_select platform arithmetic host session_id view budget hash action r)
  unfolding on_select
  on_select-IsRun hash none r at live = Triple-pure _ λ s h.
      stop-IsRun platform arithmetic budget opening _ hash invalid_policy_action r at live refl refl
  on_select-IsRun hash (some action) r at live =
      Triple-if (mem action view.allowed_actions) (λ e. perform-IsRun hash action none r at live)
        (λ e. Triple-pure _ λ s h.
          stop-IsRun platform arithmetic budget opening _ hash invalid_policy_action r at live refl
            refl)

  generate_step-IsRun :
      (generator : Generator S) (hash : String) (r : Run)
      → IsAt platform arithmetic budget opening (some hash) r
      → r.terminal_reason ≡ none
      → Yields
          (IsRun platform arithmetic budget opening)
          (generate_step platform arithmetic host session_id view budget generator hash r)
  unfolding generate_step
  generate_step-IsRun generator hash r at live =
      Triple-if (reached budget.max_generative r.generative_calls)
        (λ e. Triple-pure _ λ s h.
          exhaust-IsRun platform arithmetic budget opening (some hash) generative_budget_exhausted r
            at live refl refl)
        (λ e.
          Triple-bind (generator.generate view r.observations (r.generative_calls + 1)) _
            (Triple-any _)
            λ candidate.
              perform-IsRun hash "CALL_GENERATIVE" (some candidate) _
                (candidate-IsAt platform arithmetic budget opening (some hash) candidate r at
                  (reached_iff budget.max_generative r.generative_calls at.calls e))
                live)

  on_generative-IsRun :
      (generator : Option (Generator S)) (hash : String) (r : Run)
      → IsAt platform arithmetic budget opening (some hash) r
      → r.terminal_reason ≡ none
      → Yields
          (IsRun platform arithmetic budget opening)
          (on_generative platform arithmetic host session_id view budget generator hash r)
  unfolding on_generative
  on_generative-IsRun none hash r at live =
      Triple-if (mem "CALL_GENERATIVE" view.allowed_actions)
        (λ e. Triple-pure _ λ s h.
          stop-IsRun platform arithmetic budget opening _ hash generator_unavailable r at live refl
            refl)
        (λ e. Triple-pure _ λ s h.
          stop-IsRun platform arithmetic budget opening _ hash action_unsupported r at live refl
            refl)
  on_generative-IsRun (some g) hash r at live =
      Triple-if (mem "CALL_GENERATIVE" view.allowed_actions)
        (λ e. generate_step-IsRun g hash r at live)
        (λ e. Triple-pure _ λ s h.
          stop-IsRun platform arithmetic budget opening _ hash action_unsupported r at live refl
            refl)

  act-IsRun :
      (generator : Option (Generator S)) (d : PolicyDecision) (r : Run)
      → IsAt platform arithmetic budget opening none r
      → r.terminal_reason ≡ none
      → r.steps_taken < rounds budget.max_steps
      → Yields
          (IsRun platform arithmetic budget opening)
          (act platform arithmetic host session_id view budget generator d r)
  unfolding act
  act-IsRun generator d r at live more =
      let next = Run.decided platform arithmetic d r in
      let hash = root_sha256 next.ledger in
      let waits = decided-IsAt platform arithmetic budget opening d r at more in
      let still : next.terminal_reason ≡ none = unfold Run.decided in live in
      by_kind d.kind next hash waits still
    where
      by_kind :
          (kind : DecisionKind) (next : Run) (hash : String)
          → IsAt platform arithmetic budget opening (some hash) next
          → next.terminal_reason ≡ none
          → Yields (IsRun platform arithmetic budget opening) (elim kind [
            | select ↦ on_select platform arithmetic host session_id view budget hash d.action next
            | call_generative ↦
                on_generative platform arithmetic host session_id view budget generator hash next
            | kind ↦
                perform platform arithmetic host session_id view budget hash
                  (kind_value kind)
                  none
                  next
          ])
      by_kind select next hash waits still = on_select-IsRun hash d.action next waits still
      by_kind call_generative next hash waits still =
          on_generative-IsRun generator hash next waits still
      by_kind defer_tie next hash waits still = perform-IsRun hash _ none next waits still
      by_kind defer_no_support next hash waits still = perform-IsRun hash _ none next waits still
      by_kind defer_no_admissible next hash waits still = perform-IsRun hash _ none next waits still

  pub round-IsRun :
      (policy : Policy S) (generator : Option (Generator S)) (r : Run)
      → IsRun platform arithmetic budget opening r
      → r.terminal_reason ≡ none
      → Yields
          (IsRun platform arithmetic budget opening)
          (round platform arithmetic host session_id view budget policy generator r)
  unfolding round
  round-IsRun policy generator r at live =
      let free = subst (λ p. IsAt platform arithmetic budget opening p r) (at.idle live) at in
      Triple-if (reached budget.max_steps r.steps_taken)
        (λ e. Triple-pure _ λ s h.
          exhaust-IsRun platform arithmetic budget opening none step_budget_exhausted r free live
            refl refl)
        (λ e. Triple-bind (policy.decide view r.observations r.trajectory) _ (Triple-any _) λ d.
          act-IsRun generator d r free live (reached_iff budget.max_steps r.steps_taken at.steps e))

  pub loop-IsRun :
      (fuel : ℕ) (policy : Policy S) (generator : Option (Generator S)) (r : Run)
      → IsRun platform arithmetic budget opening r
      → Yields
          (IsRun platform arithmetic budget opening)
          (loop platform arithmetic host session_id view budget fuel policy generator r)
  loop-IsRun zero policy generator r at = unfold loop in Triple-pure r λ s h. at
  loop-IsRun (suc fuel) policy generator r at = elim (Option-cases r.terminal_reason) [
    | inl live ↦
        rw (loop_live platform arithmetic host session_id view budget fuel policy generator r live)
          (Triple-bind (round platform arithmetic host session_id view budget policy generator r)
            (λ next.
              loop platform arithmetic host session_id view budget fuel policy generator next)
            (round-IsRun policy generator r at live)
            λ next. Triple-given λ ready. loop-IsRun fuel policy generator next ready)
    | inr (reason, ended) ↦
        rw
          (loop_ended platform arithmetic host session_id view budget (suc fuel) policy generator r
            reason ended)
          (Triple-pure r λ s h. at)
  ]
