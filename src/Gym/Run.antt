-- ===== src/Gym/Run.antt =====
-- `ReferenceGym.run` of gym/core.py.
use artifact_proof_lab.Base.{
  ℕ, zero, suc, ◌+◌, String, Bool, true, false, Option, none, some, List, [], ◌∷◌, ◌++◌, map, mem,
  if◌then◌else◌,
}
use artifact_proof_lab.Base.Outcome.{
  Exception, manifest_error, source_error, value_error, zip_error, action_rejected,
  curriculum_error, crash, Result, ok, raise,
}
use artifact_proof_lab.Base.Exec.{Exec, pure, try_except, ◌>>=◌}
use artifact_proof_lab.Json.{Json, Number, Fields, str, fields_of}
use artifact_proof_lab.Json.Dump.{codes}
use artifact_proof_lab.Platform.{Platform}
use artifact_proof_lab.Gym.Canonical.{sha256_json, encode}
use artifact_proof_lab.Gym.Ledger.{
  LedgerEntry, root_sha256, start_ledger, record_observation_batch, record_decision,
  record_action_result,
}
use artifact_proof_lab.Gym.Core.{
  select, call_generative, kind_value, TerminalReason, environment_done, tool_cost_budget_exhausted,
  step_budget_exhausted, generative_budget_exhausted, generator_unavailable, action_unsupported,
  invalid_policy_action, PolicyDecision, Observation, text_or_null, observation_to_dict,
  AgentTaskView, PublicTask, view_to_dict, task_to_dict, StepOutcome, Arithmetic,
}
use artifact_proof_lab.Gym.Budget.{Budget, reached, over_cost}
use artifact_proof_lab.Gym.Gateway.{HostGateway, Policy, Generator}

-- The local variables of the loop.
pub record Run : Type 0 where
  pub observations : List Observation
  pub trajectory : List String
  pub generated_candidates : List String
  pub generative_calls : ℕ
  pub done : Bool
  pub budget_exhausted : Bool
  pub terminal_reason : Option TerminalReason
  pub terminal_cause : Option String
  pub steps_taken : ℕ
  pub ledger : List LedgerEntry

abbrev pub dicts : List Observation → List (Json Number)
dicts os = map observation_to_dict os

-- trajectory.append(step); terminal_reason = reason; the decision that is the cause, if one is
abbrev pub stop : String → TerminalReason → Option String → Run → Run
stop step reason cause r = record r {
  trajectory = r.trajectory ++ step ∷ [];
  terminal_reason = some reason;
  terminal_cause = cause;
}

-- The same with budget_exhausted = True.
abbrev pub exhaust : TerminalReason → Option String → Run → Run
exhaust reason cause r = record (stop "BUDGET_EXHAUSTED" reason cause r) { budget_exhausted = true }

module _ (platform : Platform) (arithmetic : Arithmetic) where
  unfoldable pub host_task_commitment : PublicTask → String
  unfolding sha256_json task_to_dict
  host_task_commitment task = sha256_json platform (task_to_dict task)

  -- The variables before the loop.
  unfoldable pub begin : AgentTaskView → PublicTask → Budget → List Observation → Run
  unfolding start_ledger record_observation_batch view_to_dict observation_to_dict
      host_task_commitment over_cost
  begin view task budget os =
      let fresh : Run = record {
        observations = os;
        trajectory = [];
        generated_candidates = [];
        generative_calls = 0;
        done = false;
        budget_exhausted = false;
        terminal_reason = none;
        terminal_cause = none;
        steps_taken = 0;
        ledger =
            record_observation_batch platform (dicts os) "reset"
              (start_ledger platform (view_to_dict view) (host_task_commitment task));
      } in
      if over_cost arithmetic budget os
      then exhaust tool_cost_budget_exhausted none fresh
      else fresh

  -- {"kind": ..., "action": ...}
  abbrev pub decision_dict : PolicyDecision → Fields Number
  unfolding kind_value
  decision_dict d =
      fields_of (("kind", str (kind_value d.kind)) ∷ ("action", text_or_null d.action) ∷ [])

  unfoldable pub decided : PolicyDecision → Run → Run
  unfolding record_decision observation_to_dict kind_value
  decided d r = record r {
    steps_taken = r.steps_taken + 1;
    ledger = record_decision platform (decision_dict d) (dicts r.observations) r.ledger;
  }

  abbrev pub candidate_digest : Option String → Option String
  unfolding encode
  candidate_digest none = none
  candidate_digest (some text) = some (platform.sha256 (encode (codes text)))

  -- The result of a step is recorded.
  unfoldable pub acted : String → String → Option String → StepOutcome → Run → Run
  unfolding record_action_result observation_to_dict encode
  acted hash action candidate outcome r = record r {
    trajectory = r.trajectory ++ action ∷ [];
    observations = r.observations ++ outcome.observations;
    ledger =
        record_action_result platform hash action (dicts outcome.observations) outcome.done
          outcome.accepted_candidate (candidate_digest candidate) r.ledger;
  }

  -- The tests after a step.
  unfoldable pub settled : Budget → StepOutcome → Run → Run
  unfolding over_cost
  settled budget outcome r =
      if over_cost arithmetic budget r.observations
      then exhaust tool_cost_budget_exhausted none r
      else if outcome.done
      then record r { done = true; terminal_reason = some environment_done }
      else r

abbrev pub rejected : Exception → Result (Option StepOutcome)
rejected (action_rejected m) = ok none
rejected (manifest_error m) = raise (manifest_error m)
rejected (source_error m) = raise (source_error m)
rejected (value_error m) = raise (value_error m)
rejected (zip_error m) = raise (zip_error m)
rejected (curriculum_error m) = raise (curriculum_error m)
rejected (crash m) = raise (crash m)

module _ (platform : Platform) (arithmetic : Arithmetic) {S : Type 0} (host : HostGateway S)
    (session_id : String) (view : AgentTaskView) (budget : Budget) where
  -- The outcome of the step, if the host did not reject it.
  unfoldable pub after_step : String → String → Option String → Run → Option StepOutcome → Run
  unfolding acted settled
  after_step hash action candidate r none =
      stop "DEFER_NO_ADMISSIBLE" invalid_policy_action (some hash) r
  after_step hash action candidate r (some outcome) =
      settled platform arithmetic budget outcome
        (acted platform arithmetic hash action candidate outcome r)

  -- host.step, with its handler, and the rest of the round
  unfoldable pub perform : String → String → Option String → Run → Exec S Run
  unfolding after_step ◌>>=◌ try_except
  perform hash action candidate r = do
    outcome ← try_except (host.step session_id action candidate >>= λ o. pure (some o)) rejected
    pure (after_step hash action candidate r outcome)

  -- The branch of a selected action.
  unfoldable pub on_select : String → Option String → Run → Exec S Run
  unfolding perform
  on_select hash none r = pure (stop "DEFER_NO_ADMISSIBLE" invalid_policy_action (some hash) r)
  on_select hash (some action) r =
      if mem action view.allowed_actions
      then perform hash action none r
      else pure (stop "DEFER_NO_ADMISSIBLE" invalid_policy_action (some hash) r)

  -- generator.generate, after the tests
  unfoldable pub generate_step : Generator S → String → Run → Exec S Run
  unfolding perform reached ◌>>=◌
  generate_step generator hash r =
      if reached budget.max_generative r.generative_calls
      then pure (exhaust generative_budget_exhausted (some hash) r)
      else do
        candidate ← generator.generate view r.observations (r.generative_calls + 1)
        perform hash "CALL_GENERATIVE" (some candidate) (record r {
          generative_calls = r.generative_calls + 1;
          generated_candidates = r.generated_candidates ++ candidate ∷ [];
        })

  unfoldable pub on_generative : Option (Generator S) → String → Run → Exec S Run
  unfolding generate_step
  on_generative generator hash r =
      if mem "CALL_GENERATIVE" view.allowed_actions
      then (elim generator [
        | none ↦ pure (stop "DEFER_NO_SUPPORT" generator_unavailable (some hash) r)
        | some g ↦ generate_step g hash r
      ])
      else pure (stop "DEFER_NO_SUPPORT" action_unsupported (some hash) r)

  -- One round, after the policy has decided.
  unfoldable pub act : Option (Generator S) → PolicyDecision → Run → Exec S Run
  unfolding decided on_select on_generative perform kind_value root_sha256
  act generator d r =
      let next = decided platform arithmetic d r in
      let hash = root_sha256 next.ledger in
      elim d.kind [
        | select ↦ on_select hash d.action next
        | call_generative ↦ on_generative generator hash next
        | kind ↦ perform hash (kind_value kind) none next
      ]

  unfoldable pub round : Policy S → Option (Generator S) → Run → Exec S Run
  unfolding act reached ◌>>=◌
  round policy generator r =
      if reached budget.max_steps r.steps_taken
      then pure (exhaust step_budget_exhausted none r)
      else do d ← policy.decide view r.observations r.trajectory; act generator d r

  abbrev pub unless_ended : Option TerminalReason → Run → Exec S Run → Exec S Run
  unless_ended none r next = next
  unless_ended (some reason) r next = pure r

  -- `while terminal_reason is None`; every `break` of the code has set it.
  unfoldable pub loop : ℕ → Policy S → Option (Generator S) → Run → Exec S Run
  unfolding round ◌>>=◌
  loop zero policy generator r = pure r
  loop (suc fuel) policy generator r =
      unless_ended r.terminal_reason r
        (round policy generator r >>= λ next. loop fuel policy generator next)
