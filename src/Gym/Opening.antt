-- ===== src/Gym/Opening.antt =====
-- The local variables of `ReferenceGym.run` of gym/core.py before its loop.
use artifact_proof_lab.Base.{refl, false, inl, inr, none, List, [], Bool-cases, arith}
use artifact_proof_lab.Json.{Number, Fields}
use artifact_proof_lab.Platform.{Platform}
use artifact_proof_lab.Gym.Ledger.{
  new_entry, append, start_ledger, start_payload, record_observation_batch,
}
use artifact_proof_lab.Gym.Recording.{started, observed}
use artifact_proof_lab.Gym.Core.{
  tool_cost_budget_exhausted, Observation, AgentTaskView, PublicTask, view_to_dict, Arithmetic,
}
use artifact_proof_lab.Gym.Budget.{Budget, over_cost}
use artifact_proof_lab.Gym.Run.{Run, dicts, host_task_commitment, begin}
use artifact_proof_lab.Gym.Invariant.{IsAt, IsRun, exhaust-IsRun, first_payload}

module _ (platform : Platform) (arithmetic : Arithmetic) (budget : Budget) where
  -- The commitments of the start entry.
  abbrev pub opening_of : AgentTaskView → PublicTask → Fields Number
  opening_of view task =
      start_payload platform (view_to_dict view) (host_task_commitment platform arithmetic task)

  abbrev fresh : AgentTaskView → PublicTask → List Observation → Run
  fresh view task os = record {
    observations = os;
    trajectory = [];
    generated_candidates = [];
    generative_calls = 0;
    done = false;
    budget_exhausted = false;
    terminal_reason = none;
    terminal_cause = none;
    steps_taken = 0;
    ledger =
        record_observation_batch platform (dicts os) "reset" (
          start_ledger platform (view_to_dict view)
            (host_task_commitment platform arithmetic task));
  }

  fresh-IsAt :
      (view : AgentTaskView) (task : PublicTask) (os : List Observation)
      → IsAt platform arithmetic budget (opening_of view task) none (fresh view task os)
  unfolding record_observation_batch start_ledger append new_entry first_payload
  fresh-IsAt view task os = record {
    recorded =
        observed (dicts os) "reset" _ []
          (started (view_to_dict view) (host_task_commitment platform arithmetic task));
    opened = refl;
    idle = λ e. refl;
    candidates = refl;
    calls = omega arith;
    steps = omega arith;
    flag_done = refl;
    taken = λ e. omega arith;
    ended = λ done. cc;
    flag_exhausted = refl;
  }

  pub begin-IsRun :
      (view : AgentTaskView) (task : PublicTask) (os : List Observation)
      → IsRun platform arithmetic budget
          (opening_of view task)
          (begin platform arithmetic view task budget os)
  unfolding begin
  begin-IsRun view task os =
      let at = fresh-IsAt view task os in
      elim (Bool-cases (over_cost arithmetic budget os)) [
        | inl over ↦ rw over (
            exhaust-IsRun platform arithmetic budget (opening_of view task) none
              tool_cost_budget_exhausted (fresh view task os) at refl refl refl)
        | inr under ↦ rw under at
      ]
