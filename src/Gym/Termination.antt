-- ===== src/Gym/Termination.antt =====
-- The loop of `ReferenceGym.run` returns, where the parties that it calls do.
use artifact_proof_lab.Base.{
  ℕ, zero, suc, ◌+◌, ◌≤◌, String, ◌≡◌, ◌⊎◌, refl, ap, inl, inr, Option, none, some, List, length,
  mem, Option-cases, arith,
}
use artifact_proof_lab.Base.Outcome.{Result, ok, raise, raise-injective, action_rejected}
use artifact_proof_lab.Base.Exec.{
  Exec, pure, proceed, handle, try_except, ◌>>=◌, Returns, Returns-bind, Returns-pure, Returns-if,
}
use artifact_proof_lab.Platform.{Platform}
use artifact_proof_lab.Gym.Ledger.{root_sha256}
use artifact_proof_lab.Gym.Core.{
  DecisionKind, select, call_generative, defer_tie, defer_no_support, defer_no_admissible,
  TerminalReason, kind_value, PolicyDecision, Observation, AgentTaskView, PublicTask, StepOutcome,
  Arithmetic,
}
use artifact_proof_lab.Gym.Budget.{Budget, rounds, reached}
use artifact_proof_lab.Gym.Gateway.{HostGateway, Policy, Generator}
use artifact_proof_lab.Gym.Run
use artifact_proof_lab.Gym.Run.{
  Run, rejected, after_step, perform, on_select, generate_step, on_generative, act, round, loop,
  begin,
}
use artifact_proof_lab.Gym.Opening.{opening_of, begin-IsRun}
use artifact_proof_lab.Gym.Rounds.{loop_live, loop_ended, loop-IsRun}
use artifact_proof_lab.Gym.Progress.{loop-ended}

-- The method returns, or rejects the action.
abbrev pub Responds : {S A : Type 0} → Exec S A → Type 0
Responds {S} {A} m =
    (s : S)
    → ((a : A) × ((m s).0 ≡ ok a))
      ⊎ ((reason : String) × ((m s).0 ≡ raise (action_rejected reason)))

abbrev GeneratorReturns : {S : Type 0} → Option (Generator S) → Type 0
GeneratorReturns none = Unit
GeneratorReturns (some g) =
    (view : AgentTaskView) (os : List Observation) (attempt : ℕ)
    → Returns (g.generate view os attempt)

caught_step :
    {S : Type 0} (ended : Result StepOutcome × S)
    → ((a : StepOutcome) × (ended.0 ≡ ok a))
      ⊎ ((reason : String) × (ended.0 ≡ raise (action_rejected reason)))
    → (o : Option StepOutcome) × (handle rejected (proceed (λ a. pure (some a)) ended).0 ≡ ok o)
caught_step (ok a, s) h = (some a, refl)
caught_step (raise e, s) (inl (a, same)) = cc
caught_step (raise e, s) (inr (reason, same)) = (none, ap rejected (raise-injective same))

step-Returns :
    {S : Type 0} (step : Exec S StepOutcome)
    → Responds step
    → Returns (try_except (step >>= λ o. pure (some o)) rejected)
unfolding try_except ◌>>=◌
step-Returns step h = λ s. caught_step (step s) (h s)

module _ (platform : Platform) (arithmetic : Arithmetic) {S : Type 0} (host : HostGateway S)
    (session_id : String) (view : AgentTaskView) (budget : Budget) (policy : Policy S)
    (generator : Option (Generator S))
    (steps : (action : String) (candidate : Option String)
      → Responds (host.step session_id action candidate))
    (decides : (os : List Observation) (trajectory : List String)
      → Returns (policy.decide view os trajectory))
    (generates : GeneratorReturns generator) where
  perform-Returns :
      (hash action : String) (candidate : Option String) (r : Run)
      → Returns (perform platform arithmetic host session_id view budget hash action candidate r)
  unfolding perform
  perform-Returns hash action candidate r =
      Returns-bind _ _
        (step-Returns (host.step session_id action candidate) (steps action candidate))
        λ outcome. Returns-pure _

  on_select-Returns :
      (hash : String) (action : Option String) (r : Run)
      → Returns (on_select platform arithmetic host session_id view budget hash action r)
  unfolding on_select
  on_select-Returns hash none r = Returns-pure _
  on_select-Returns hash (some action) r =
      Returns-if (mem action view.allowed_actions) _ _ (perform-Returns hash action none r)
        (Returns-pure _)

  generate_step-Returns :
      (g : Generator S) (hash : String) (r : Run)
      → GeneratorReturns (some g)
      → Returns (generate_step platform arithmetic host session_id view budget g hash r)
  unfolding generate_step
  generate_step-Returns g hash r h =
      Returns-if (reached budget.max_generative r.generative_calls) _ _ (Returns-pure _) (
        Returns-bind _ _ (h view r.observations (r.generative_calls + 1))
          λ candidate. perform-Returns hash "CALL_GENERATIVE" (some candidate) _)

  on_generative-Returns :
      (g : Option (Generator S)) (hash : String) (r : Run)
      → GeneratorReturns g
      → Returns (on_generative platform arithmetic host session_id view budget g hash r)
  unfolding on_generative
  on_generative-Returns none hash r h =
      Returns-if (mem "CALL_GENERATIVE" view.allowed_actions) _ _ (Returns-pure _) (Returns-pure _)
  on_generative-Returns (some g) hash r h =
      Returns-if (mem "CALL_GENERATIVE" view.allowed_actions) _ _ (generate_step-Returns g hash r h)
        (Returns-pure _)

  act-Returns :
      (d : PolicyDecision) (r : Run)
      → Returns (act platform arithmetic host session_id view budget generator d r)
  unfolding act
  act-Returns d r =
      let next = Run.decided platform arithmetic d r in
      by_kind d.kind next (root_sha256 next.ledger)
    where
      by_kind :
          (kind : DecisionKind) (next : Run) (hash : String)
          → Returns (elim kind [
            | select ↦ on_select platform arithmetic host session_id view budget hash d.action next
            | call_generative ↦
                on_generative platform arithmetic host session_id view budget generator hash next
            | kind ↦
                perform platform arithmetic host session_id view budget hash
                  (kind_value kind)
                  none
                  next
          ])
      by_kind select next hash = on_select-Returns hash d.action next
      by_kind call_generative next hash = on_generative-Returns generator hash next generates
      by_kind defer_tie next hash = perform-Returns hash _ none next
      by_kind defer_no_support next hash = perform-Returns hash _ none next
      by_kind defer_no_admissible next hash = perform-Returns hash _ none next

  loop-Returns :
      (fuel : ℕ) (r : Run)
      → Returns (loop platform arithmetic host session_id view budget fuel policy generator r)
  loop-Returns zero r = unfold loop in Returns-pure r
  loop-Returns (suc fuel) r = elim (Option-cases r.terminal_reason) [
    | inl live ↦
        rw (loop_live platform arithmetic host session_id view budget fuel policy generator r live)
          (Returns-bind (round platform arithmetic host session_id view budget policy generator r) _
            (unfold round in
              Returns-if (reached budget.max_steps r.steps_taken) _ _ (Returns-pure _)
                (Returns-bind _ _ (decides r.observations r.trajectory) λ d. act-Returns d r))
            λ next. loop-Returns fuel next)
    | inr (reason, ended) ↦
        rw
          (loop_ended platform arithmetic host session_id view budget (suc fuel) policy generator r
            reason ended)
          (Returns-pure r)
  ]

  -- Where the policy and the generator return, and each step returns or is rejected, the loop of a
  -- run returns from every state, with a terminal reason, at most `max_steps` decisions and at most
  -- `max_generative_calls` calls of the generator, of which each has left its candidate.
  pub loop-ends :
      (task : PublicTask) (os : List Observation) (s : S)
      → let method =
          loop platform arithmetic host session_id view budget
            (suc (rounds budget.max_steps))
            policy
            generator
            (begin platform arithmetic view task budget os) in
        (r : Run) × ((method s).0 ≡ ok r)
        × ((reason : TerminalReason) × (r.terminal_reason ≡ some reason))
        × (r.steps_taken ≤ rounds budget.max_steps)
        × (r.generative_calls ≤ rounds budget.max_generative)
        × (length r.generated_candidates ≡ r.generative_calls)
  loop-ends task os s =
      let first = begin platform arithmetic view task budget os in
      let fuel = suc (rounds budget.max_steps) in
      let opening = opening_of platform arithmetic budget view task in
      let at = begin-IsRun platform arithmetic budget view task os in
      let (r, returned) = loop-Returns fuel first s in
      let last =
        (loop-IsRun platform arithmetic host session_id view budget opening fuel policy generator
            first at).run
          s tt r returned in
      let ended =
        (loop-ended platform arithmetic host session_id view budget opening fuel policy generator
            first at (omega arith)).run
          s tt r returned in
      (
        r,
        returned,
        elim (Option-cases r.terminal_reason) [
          | inl live ↦ absurd (ended live)
          | inr reason ↦ reason
        ],
        last.steps,
        last.calls,
        last.candidates,
      )
