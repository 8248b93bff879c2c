-- ===== src/Gym/Finish.antt =====
-- The end of `ReferenceGym.run` of gym/core.py: admission, rewards, learning, and the whole run.
-- `run` is called outside any handler, so that an exception of `host.close` leaves a run that has
-- returned.
use artifact_proof_lab.Base.{
  suc, String, Bool, true, false, not, ◌&&◌, Option, none, some, List, [], ◌∷◌, length, any, ◌==◌,
  if◌then◌else◌,
}
use artifact_proof_lab.Base.Text.{has_prefix}
use artifact_proof_lab.Base.Outcome.{
  manifest_error, source_error, value_error, zip_error, action_rejected, curriculum_error, crash,
  Result, ok, raise, require,
}
use artifact_proof_lab.Base.Exec.{Exec, pure, lift, ◌>>=◌, ◌>>◌}
use artifact_proof_lab.Platform.{Platform}
use artifact_proof_lab.Gym.Ledger.{LedgerEntry, root_sha256, record_terminal, to_document}
use artifact_proof_lab.Gym.Verify.{verify_ledger_document}
use artifact_proof_lab.Gym.Core.{
  TerminalReason, environment_done, reason_value, PublicTask, view_to_dict, agent_view,
  AdmissionReceipt, EpisodeResult, Arithmetic,
}
use artifact_proof_lab.Gym.Admission.{provenance_valid, tool_cost, count_useless_retries}
use artifact_proof_lab.Gym.Budget.{rounds, read_budget}
use artifact_proof_lab.Gym.Gateway.{
  HostSessionStart, HostGateway, Policy, Generator, LearningSink, Proof, ProofVerifier,
}
use artifact_proof_lab.Gym.Run.{Run, dicts, begin, loop}

-- Whether a check that returns its verdict and a reason has accepted, and that reason.
abbrev pub is_valid : Result (Unit {0}) → Bool
is_valid (ok _) = true
is_valid (raise e) = false

abbrev pub reason_of : String → Result (Unit {0}) → String
reason_of accepted (ok _) = accepted
reason_of accepted (raise (manifest_error m)) = m
reason_of accepted (raise (source_error m)) = m
reason_of accepted (raise (value_error m)) = m
reason_of accepted (raise (zip_error m)) = m
reason_of accepted (raise (action_rejected m)) = m
reason_of accepted (raise (curriculum_error m)) = m
reason_of accepted (raise (crash m)) = m

abbrev is_done : TerminalReason → Bool
is_done environment_done = true
is_done _ = false

-- The ledger that the run ends with.
unfoldable pub closed_ledger : Platform → TerminalReason → Bool → Bool → Run → List LedgerEntry
unfolding record_terminal reason_value
closed_ledger platform reason semantic provenance r =
    record_terminal platform (reason_value reason) semantic provenance r.budget_exhausted
      (dicts r.observations) r.terminal_cause r.ledger

unfoldable pub admission_reason :
    Run → TerminalReason → Bool → Result (Unit {0}) → Result (Unit {0}) → Bool → String
unfolding reason_value
admission_reason r reason semantic provenance trajectory integrity =
    if r.budget_exhausted
    then reason_value reason
    else if not semantic
    then "semantic evaluator rejected trajectory"
    else if not (is_valid provenance)
    then reason_of "provenance accepted" provenance
    else if not (is_valid trajectory)
    then reason_of "trajectory ledger verified" trajectory
    else if not integrity
    then "proof bundle integrity rejected"
    else "evidence admitted"

unfoldable pub receipt :
    Run → TerminalReason → Bool → Result (Unit {0}) → Result (Unit {0}) → Proof → AdmissionReceipt
unfolding admission_reason
receipt r reason semantic provenance trajectory (integrity, report) = record {
  semantic_valid = semantic;
  provenance_valid = is_valid provenance;
  trajectory_valid = is_valid trajectory;
  integrity_valid = integrity;
  admitted = semantic && (is_valid provenance && (is_valid trajectory && integrity));
  reason = admission_reason r reason semantic provenance trajectory integrity;
  proof_report = report;
}

abbrev credit : Bool → String
credit b = if b then "1.0" else "0.0"

unfoldable pub rewards : Arithmetic → Run → AdmissionReceipt → List (String × String)
unfolding tool_cost count_useless_retries has_prefix
rewards arithmetic r a =
    ("task_acceptance", credit a.semantic_valid)
    ∷ ("proof_closure", credit (a.provenance_valid && (a.trajectory_valid && a.integrity_valid)))
    ∷ ("admission_credit", credit a.admitted)
    ∷ ("resource_cost", arithmetic.negate (tool_cost arithmetic r.observations))
    ∷ (
      "useless_retry_penalty",
      arithmetic.negate (arithmetic.float_of (count_useless_retries arithmetic r.observations)),
    )
    ∷ ("defer_quality", credit (a.admitted && any (λ step. has_prefix "DEFER_" step) r.trajectory))
    ∷ []

-- The result before learning.
unfoldable pub provisional :
    Arithmetic
    → PublicTask
    → Run
    → TerminalReason
    → AdmissionReceipt
    → List LedgerEntry
    → EpisodeResult
unfolding rewards reason_value root_sha256
provisional arithmetic task r reason admission ledger = record {
  task_id = task.task_id;
  split = task.split;
  domain = task.domain;
  trajectory = r.trajectory;
  observations = r.observations;
  admission = admission;
  reward_channels = rewards arithmetic r admission;
  learning_updated = false;
  generative_calls = r.generative_calls;
  terminal_reason = reason_value reason;
  budget_exhausted = r.budget_exhausted;
  generated_candidates = r.generated_candidates;
  ledger_root_sha256 = some (root_sha256 ledger);
  ledger_entry_count = length ledger;
  ledger_entries = ledger;
}

-- try: body; finally: closing, whose exception gives way to one of the body
abbrev pub close_result : {A B : Type 0} → Result A → Result B → Result A
close_result (raise e) ended = raise e
close_result (ok a) (raise e) = raise e
close_result (ok a) (ok b) = ok a

unfoldable pub finally : {S A B : Type 0} → Exec S A → Exec S B → Exec S A
finally body closing s =
    let (result, s1) = body s in let (ended, s2) = closing s1 in (close_result result ended, s2)

module _ {S : Type 0} where
  -- learning_updated, and the update
  unfoldable pub learn : Option (LearningSink S) → EpisodeResult → Exec S EpisodeResult
  unfolding ◌>>=◌
  learn sink result =
      if result.admission.admitted && result.split == "train"
      then (elim sink [
        | none ↦ pure result
        | some to ↦ to.update result >> pure (record result { learning_updated = true })
      ])
      else pure result

  -- done and not budget_exhausted and reason is ENVIRONMENT_DONE and host.semantic_verdict(...)
  unfoldable pub semantic_valid : HostGateway S → String → TerminalReason → Run → Exec S Bool
  semantic_valid host session_id reason r =
      if r.done && (not r.budget_exhausted && is_done reason)
      then host.semantic_verdict session_id
      else pure false

module _ (platform : Platform) (arithmetic : Arithmetic) {S : Type 0}
    (verifier : ProofVerifier) where
  -- From the semantic verdict to the result.
  unfoldable pub admit : PublicTask → TerminalReason → Run → Bool → Exec S EpisodeResult
  unfolding closed_ledger provenance_valid verify_ledger_document to_document receipt provisional
      ◌>>=◌
  admit task reason r semantic =
      let provenance = provenance_valid arithmetic r.observations in
      let ledger = closed_ledger platform reason semantic (is_valid provenance) r in
      let trajectory = verify_ledger_document platform (to_document ledger) in
      lift (
        verifier.verify task r.observations semantic (some (is_valid provenance))
          (some (to_document ledger)))
      >>= λ proof. pure (
          provisional arithmetic task r reason
            (receipt r reason semantic provenance trajectory proof) ledger)

  -- From the end of the loop to the result; an end without a reason fails the assertion.
  unfoldable pub finish_as :
      HostGateway S
      → String
      → PublicTask
      → Option (LearningSink S)
      → Run
      → Option TerminalReason
      → Exec S EpisodeResult
  unfolding admit learn semantic_valid ◌>>=◌
  finish_as host session_id task sink r none = lift (raise (crash "AssertionError"))
  finish_as host session_id task sink r (some reason) = do
    semantic ← semantic_valid host session_id reason r
    result ← admit task reason r semantic
    learn sink result

  -- The body of the `try`.
  unfoldable pub run_session :
      HostGateway S
      → PublicTask
      → Policy S
      → Option (Generator S)
      → Option (LearningSink S)
      → HostSessionStart
      → Exec S EpisodeResult
  unfolding finish_as loop begin agent_view read_budget view_to_dict ◌>>=◌
  run_session host task policy generator sink start = do
    view ← lift (agent_view task)
    lift (
        require (arithmetic.equal (view_to_dict start.agent_task) (view_to_dict view))
          (crash "host returned an agent task surface inconsistent with the host descriptor"))
    budget ← lift (read_budget arithmetic task.budget)
    r ←
        loop platform arithmetic host start.session_id start.agent_task budget
          (suc (rounds budget.max_steps)) policy generator
          (begin platform arithmetic start.agent_task task budget start.observations)
    finish_as host start.session_id task sink r r.terminal_reason

  unfoldable pub run :
      HostGateway S
      → PublicTask
      → Policy S
      → Option (Generator S)
      → Option (LearningSink S)
      → Exec S EpisodeResult
  unfolding run_session finally ◌>>=◌
  run host task policy generator sink = do
    start ← host.start task
    finally (run_session host task policy generator sink start) (host.close start.session_id)
