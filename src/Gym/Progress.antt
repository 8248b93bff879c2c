-- ===== src/Gym/Progress.antt =====
-- Every round of `ReferenceGym.run` takes one step or ends the loop.
use artifact_proof_lab.Base.{
  ℕ, zero, suc, ◌+◌, ◌<◌, String, ◌≡◌, ◌≢◌, refl, sym, ◌∙◌, subst, inl, inr, Option, none, some,
  mem, Option-cases, arith,
}
use artifact_proof_lab.Base.Exec.{
  Exec, pure, try_except, ◌>>=◌, Triple-bind, Triple-pure, Triple-if, Triple-any, Triple-given,
  Triple-map, Triple-both,
}
use artifact_proof_lab.Json.{Number, Fields}
use artifact_proof_lab.Platform.{Platform}
use artifact_proof_lab.Gym.Ledger.{root_sha256}
use artifact_proof_lab.Gym.Core.{
  DecisionKind, select, call_generative, defer_tie, defer_no_support, defer_no_admissible,
  TerminalReason, kind_value, PolicyDecision, AgentTaskView, StepOutcome, Arithmetic,
}
use artifact_proof_lab.Gym.Budget.{Budget, rounds, reached}
use artifact_proof_lab.Gym.Gateway.{HostGateway, Policy, Generator}
use artifact_proof_lab.Gym.Run
use artifact_proof_lab.Gym.Run.{
  Run, rejected, after_step, perform, on_select, generate_step, on_generative, act, round, loop,
  settled,
}
use artifact_proof_lab.Gym.Invariant.{IsRun}
use artifact_proof_lab.Gym.Rounds.{Yields, round-IsRun, loop_live, loop_ended}

module _ (platform : Platform) (arithmetic : Arithmetic) {S : Type 0} (host : HostGateway S)
    (session_id : String) (view : AgentTaskView) (budget : Budget) (opening : Fields Number) where
  -- A method that leaves the count of steps at `n`.
  abbrev Counts : ℕ → Exec S Run → Type 0
  Counts n method = Yields (λ next. next.steps_taken ≡ n) method

  after_step-steps :
      (hash action : String) (candidate : Option String) (r : Run) (outcome : Option StepOutcome)
      → (after_step platform arithmetic host session_id view budget hash action candidate r
          outcome).steps_taken
        ≡ r.steps_taken
  unfolding after_step settled Run.acted
  after_step-steps hash action candidate r none = refl
  after_step-steps hash action candidate r (some outcome) = ground arith

  perform-Counts :
      (hash action : String) (candidate : Option String) (r : Run)
      → Counts r.steps_taken
          (perform platform arithmetic host session_id view budget hash action candidate r)
  unfolding perform
  perform-Counts hash action candidate r =
      Triple-bind
        (try_except (host.step session_id action candidate >>= λ o. pure (some o)) rejected) _
        (Triple-any _)
        λ outcome. Triple-pure _ λ s h. after_step-steps hash action candidate r outcome

  on_select-Counts :
      (hash : String) (action : Option String) (r : Run)
      → Counts r.steps_taken
          (on_select platform arithmetic host session_id view budget hash action r)
  unfolding on_select
  on_select-Counts hash none r = Triple-pure _ λ s h. refl
  on_select-Counts hash (some action) r =
      Triple-if (mem action view.allowed_actions) (λ e. perform-Counts hash action none r)
        (λ e. Triple-pure _ λ s h. refl)

  on_generative-Counts :
      (generator : Option (Generator S)) (hash : String) (r : Run)
      → Counts r.steps_taken
          (on_generative platform arithmetic host session_id view budget generator hash r)
  unfolding on_generative generate_step
  on_generative-Counts none hash r =
      Triple-if (mem "CALL_GENERATIVE" view.allowed_actions) (λ e. Triple-pure _ λ s h. refl)
        (λ e. Triple-pure _ λ s h. refl)
  on_generative-Counts (some g) hash r =
      Triple-if (mem "CALL_GENERATIVE" view.allowed_actions)
        (λ e.
          Triple-if (reached budget.max_generative r.generative_calls)
            (λ f. Triple-pure _ λ s h. refl)
            (λ f.
              Triple-bind (g.generate view r.observations (r.generative_calls + 1)) _ (Triple-any _)
                λ candidate. perform-Counts hash "CALL_GENERATIVE" (some candidate) _))
        (λ e. Triple-pure _ λ s h. refl)

  act-Counts :
      (generator : Option (Generator S)) (d : PolicyDecision) (r : Run)
      → Counts
          (r.steps_taken + 1)
          (act platform arithmetic host session_id view budget generator d r)
  unfolding act
  act-Counts generator d r =
      let next = Run.decided platform arithmetic d r in
      subst (λ n. Counts n (act platform arithmetic host session_id view budget generator d r))
        (unfold Run.decided in refl) (by_kind d.kind next (root_sha256 next.ledger))
    where
      by_kind :
          (kind : DecisionKind) (next : Run) (hash : String)
          → Counts next.steps_taken (elim kind [
            | select ↦ on_select platform arithmetic host session_id view budget hash d.action next
            | call_generative ↦
                on_generative platform arithmetic host session_id view budget generator hash next
            | kind ↦
                perform platform arithmetic host session_id view budget hash
                  (kind_value kind)
                  none
                  next
          ])
      by_kind select next hash = on_select-Counts hash d.action next
      by_kind call_generative next hash = on_generative-Counts generator hash next
      by_kind defer_tie next hash = perform-Counts hash _ none next
      by_kind defer_no_support next hash = perform-Counts hash _ none next
      by_kind defer_no_admissible next hash = perform-Counts hash _ none next

  -- A round after which the loop goes on has taken a step.
  abbrev Advances : Run → Run → Type 0
  Advances r next = next.terminal_reason ≡ none → next.steps_taken ≡ r.steps_taken + 1

  round-Advances :
      (policy : Policy S) (generator : Option (Generator S)) (r : Run)
      → Yields
          (Advances r)
          (round platform arithmetic host session_id view budget policy generator r)
  unfolding round
  round-Advances policy generator r =
      Triple-if (reached budget.max_steps r.steps_taken) (λ e. Triple-pure _ λ s h live. cc)
        (λ e.
          Triple-bind (policy.decide view r.observations r.trajectory) _ (Triple-any _)
            λ d. Triple-map _ (λ next s same live. same) (act-Counts generator d r))

  stops :
      (fuel : ℕ) (policy : Policy S) (generator : Option (Generator S)) (r : Run)
      (reason : TerminalReason)
      → r.terminal_reason ≡ some reason
      → Yields
          (λ next. next.terminal_reason ≢ none)
          (loop platform arithmetic host session_id view budget fuel policy generator r)
  stops fuel policy generator r reason ended =
      rw
        (loop_ended platform arithmetic host session_id view budget fuel policy generator r reason
          ended)
        (Triple-pure r λ s h e. let other : some reason ≡ none = sym ended ∙ e in cc)

  -- With fuel for the steps that are left, and one round more, the loop ends for a reason.
  pub loop-ended :
      (fuel : ℕ) (policy : Policy S) (generator : Option (Generator S)) (r : Run)
      → IsRun platform arithmetic budget opening r
      → rounds budget.max_steps < fuel + r.steps_taken
      → Yields
          (λ next. next.terminal_reason ≢ none)
          (loop platform arithmetic host session_id view budget fuel policy generator r)
  loop-ended zero policy generator r at enough = absurd (omega (arith, at.steps))
  loop-ended (suc fuel) policy generator r at enough = elim (Option-cases r.terminal_reason) [
    | inl live ↦
        rw (loop_live platform arithmetic host session_id view budget fuel policy generator r live)
          (Triple-bind (round platform arithmetic host session_id view budget policy generator r)
            (λ next.
              loop platform arithmetic host session_id view budget fuel policy generator next)
            (Triple-both
              (round-IsRun platform arithmetic host session_id view budget opening policy generator
                r at live)
              (round-Advances policy generator r))
            λ next. Triple-given λ (ready, advances). elim (Option-cases next.terminal_reason) [
              | inl more ↦
                  loop-ended fuel policy generator next ready (omega (arith, advances more, enough))
              | inr (reason, ended) ↦ stops fuel policy generator next reason ended
            ])
    | inr (reason, ended) ↦ stops (suc fuel) policy generator r reason ended
  ]
