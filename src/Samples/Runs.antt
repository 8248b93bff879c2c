-- ===== src/Samples/Runs.antt =====
-- A task of the gym with one door, an environment for it, and runs of it.
use artifact_proof_lab.Base.{
  ℕ, suc, ◌+◌, ◌≤◌, String, ◌≡◌, refl, inl, inr, Bool, true, false, Option, none, some, List, [],
  ◌∷◌, length, ◌==◌, if◌then◌else◌, eq_iff,
}
use artifact_proof_lab.Base.Int.{ℤ, pos}
use artifact_proof_lab.Base.Sort.{same_int, at_most}
use artifact_proof_lab.Base.Outcome
use artifact_proof_lab.Base.Outcome.{Result, ok, raise, crash}
use artifact_proof_lab.Base.Exec
use artifact_proof_lab.Base.Exec.{Exec, pure}
use artifact_proof_lab.Json.{
  Json, Number, Fields, null, num, int, float, str, get, elements, fields_of,
}
use artifact_proof_lab.Json.Dump.{dump_string}
use artifact_proof_lab.Platform.{Bytes}
use artifact_proof_lab.Gym.Ledger.{to_document}
use artifact_proof_lab.Gym.Core.{
  select, Observation, AgentTaskView, PublicTask, EpisodeResult, TerminalReason, environment_done,
  tuple_of, agent_view, view_to_dict, Arithmetic,
}
use artifact_proof_lab.Gym.Admission.{provenance_valid}
use artifact_proof_lab.Gym.Provenance.{IsEvidence, provenance_valid_iff}
use artifact_proof_lab.Gym.Gateway.{
  Environment, HostSessionStart, HostGateway, Policy, ProofVerifier,
}
use artifact_proof_lab.Gym.Budget.{Budget, rounds}
use artifact_proof_lab.Gym.Run.{Run, begin, loop}
use artifact_proof_lab.Gym.Finish.{closed_ledger, run}
use artifact_proof_lab.Gym.Bundle.{prove, verify_bundle}
use artifact_proof_lab.Gym.LocalHost.{
  LocalReferenceHost, find, step, semantic_verdict, close, start, local_host,
}
use artifact_proof_lab.Gym.Opening.{begin-IsRun}
use artifact_proof_lab.Gym.Termination.{loop-ends}
use artifact_proof_lab.Gym.Sessions.{IsTable, close-find, world_policy, world_generator, world_sink}
use artifact_proof_lab.Gym.Closing.{run-closes}
use artifact_proof_lab.Gym.Admissible.{IsResult}
use artifact_proof_lab.Gym.Admitted.{run-IsResult}
use artifact_proof_lab.Gym.BundleLaws.{verify_bundle-closed}
use artifact_proof_lab.Gym.BundleAccepts.{IsAccepted, verify_bundle-IsAccepted}
use artifact_proof_lab.Samples.{platform}

abbrev pub to_int : Json Number → Result ℤ
to_int (num (int n)) = ok n
to_int v = raise (crash "TypeError")

abbrev pub arithmetic : Arithmetic
arithmetic = record {
  is_finite = λ cost. true;
  is_negative = λ cost. false;
  sum = λ costs. "0.0";
  negate = λ f. f;
  exceeds = λ f limit. false;
  to_int = to_int;
  to_float = λ v. ok "1.0";
  ratio = λ a b. "1.0";
  is_rate = λ f. true;
  float_of = λ n. "0.0";
  equal = λ a b. true;
}

abbrev seen : ℕ → String → Observation
seen n door = record {
  observation_id = door;
  source_lineage_root = "root";
  check_id = "door";
  probe_id = "look";
  attempt_id = pos n;
  sequence_index = pos n;
  logical_tick = pos n;
  observation_type = "state";
  status = "seen";
  value = str door;
  cost = float "0.0";
  raw_payload_ref = none;
}

abbrev two_looks : List Observation
two_looks = seen 0 "closed" ∷ seen 1 "open" ∷ []

two_looks_valid : provenance_valid arithmetic two_looks ≡ ok tt
unfolding provenance_valid Outcome.◌>>=◌ same_int at_most
two_looks_valid = refl

provenance_valid_iff_example : IsEvidence arithmetic two_looks
provenance_valid_iff_example = (provenance_valid_iff arithmetic two_looks).0 two_looks_valid

abbrev pub task : PublicTask
task = record {
  task_id = "door";
  domain = "rooms";
  skill_targets = [];
  description = "open the door";
  environment = fields_of [];
  allowed_actions = "open" ∷ [];
  budget = fields_of (("max_steps", num (int (pos 2))) ∷ []);
  split = "train";
  public_tests = [];
  metadata = fields_of [];
}

abbrev view : AgentTaskView
view = record {
  task_id = "door";
  domain = "rooms";
  description = "open the door";
  allowed_actions = "open" ∷ [];
  budget = fields_of (("max_steps", num (int (pos 2))) ∷ []);
  public_tests = [];
  public_inputs = [];
}

-- The state is the number of steps so far.
abbrev environment : Environment ℕ
environment = record {
  reset = pure (seen 0 "closed" ∷ []);
  step = λ action candidate n. (
    ok (record { observations = seen 1 "open" ∷ []; done = true; accepted_candidate = none }),
    n + 1,
  );
  semantic_verdict = pure true;
  close = none;
}

abbrev pub factory : PublicTask → Exec ℕ (Environment ℕ)
factory t = pure environment

abbrev text_of : Option (Json Number) → String
text_of v = "None"

abbrev pub opener : Policy ℕ
opener = record {
  decide = λ v os trajectory. pure (record { kind = select; action = some "open"; rationale = "" });
}

abbrev pub host : HostGateway (LocalReferenceHost ℕ)
host = local_host platform text_of factory

abbrev pub empty_host : LocalReferenceHost ℕ
empty_host = record { sessions = []; counter = 0; world = 0 }

abbrev passing : List (String × Bytes) → Result (Bool × Json Number)
passing files = ok (true, null)

abbrev pub trusting : ProofVerifier
trusting = record { verify = λ t os semantic provenance document. ok (true, none) }

abbrev budget : Budget
budget = record { max_steps = pos 2; max_generative = pos 0; max_tool_cost = none }

-- A host with one step, over the bare state.
abbrev bare_host : HostGateway ℕ
bare_host = record {
  start = λ t.
      pure (record { session_id = "s"; agent_task = view; observations = seen 0 "closed" ∷ [] });
  step = λ id action candidate. environment.step action candidate;
  semantic_verdict = λ id. pure true;
  close = λ id. pure tt;
}

loop-ends_example :
    (r : Run) × ((loop platform arithmetic bare_host "s" view budget
        (suc (rounds budget.max_steps))
        opener
        none
        (begin platform arithmetic view task budget (seen 0 "closed" ∷ []))
        0).0
      ≡ ok r)
    × ((reason : TerminalReason) × (r.terminal_reason ≡ some reason))
    × (r.steps_taken ≤ rounds budget.max_steps)
    × (r.generative_calls ≤ rounds budget.max_generative)
    × (length r.generated_candidates ≡ r.generative_calls)
loop-ends_example =
    loop-ends platform arithmetic bare_host "s" view budget opener none
      (λ action candidate s. inl (_, refl)) (λ os trajectory s. (_, refl)) tt task
      (seen 0 "closed" ∷ []) 0

-- What a run on the local host gives.
abbrev finished : Result EpisodeResult
finished = (run platform arithmetic trusting host task (world_policy opener) none none empty_host).0

abbrev pub result_or : EpisodeResult → Result EpisodeResult → EpisodeResult
result_or d (ok result) = result
result_or d (raise e) = d

abbrev pub no_result : EpisodeResult
no_result = record {
  task_id = "";
  split = "";
  domain = "";
  trajectory = [];
  observations = [];
  admission = record {
    semantic_valid = false;
    provenance_valid = false;
    trajectory_valid = false;
    integrity_valid = false;
    admitted = false;
    reason = "";
    proof_report = none;
  };
  reward_channels = [];
  learning_updated = false;
  generative_calls = 0;
  terminal_reason = "";
  budget_exhausted = false;
  generated_candidates = [];
  ledger_root_sha256 = none;
  ledger_entry_count = 0;
  ledger_entries = [];
}

abbrev sample_result : EpisodeResult
sample_result = result_or no_result finished

finished_ok : finished ≡ ok sample_result
unfolding run Outcome.◌>>=◌ Exec.◌>>=◌ dump_string world_policy start close find tuple_of step
    semantic_verdict same_int at_most elements
finished_ok = refl

run-IsResult_example :
    IsResult platform arithmetic trusting task sample_result
    × (run platform arithmetic trusting host task (world_policy opener) none none empty_host
        ≡ run platform arithmetic trusting host task
            (world_policy opener)
            none
            (if sample_result.learning_updated then none else none)
            empty_host)
run-IsResult_example =
    run-IsResult platform arithmetic trusting host task (world_policy opener) none none empty_host
      sample_result finished_ok

abbrev started : HostSessionStart
started = record {
  session_id = "session-fedcba9876543210fedc";
  agent_task = view;
  observations = seen 0 "closed" ∷ [];
}

started_ok : (start platform text_of factory task empty_host).0 ≡ ok started
unfolding start Outcome.◌>>=◌ Exec.◌>>=◌ get tuple_of
started_ok = refl

run-closes_example :
    (run platform arithmetic trusting host task
      (world_policy opener)
      (world_generator none)
      (world_sink none)
      empty_host).1.sessions
    ≡ []
run-closes_example =
    run-closes platform text_of factory arithmetic trusting task opener none none empty_host started
      started_ok

abbrev busy_host : LocalReferenceHost ℕ
busy_host = record {
  sessions =
      ("a", record { task = task; environment = environment })
      ∷ ("b", record { task = task; environment = environment })
      ∷ [];
  counter = 2;
  world = 0;
}

busy-IsTable : IsTable busy_host
busy-IsTable = (
  λ held. elim held [ inl same ↦ cc ((eq_iff "b" "a").1 same) | inr later ↦ later ],
  (λ held. held, tt),
)

close-find_example :
    IsTable (close "a" busy_host).1
    × ((j : String)
        → find j (close "a" busy_host).1.sessions
          ≡ (if "a" == j then none else find j busy_host.sessions))
close-find_example = close-find "a" busy_host busy-IsTable

abbrev begun : Run
begun = begin platform arithmetic view task budget (seen 0 "closed" ∷ [])

shown : agent_view task ≡ ok view
unfolding agent_view Outcome.◌>>=◌ get tuple_of
shown = refl

abbrev document : Fields Number
document = to_document (closed_ledger platform environment_done true true begun)

verify_bundle-closed_example :
    verify_bundle platform arithmetic passing task begun.observations true
      (some true)
      (some document)
    ≡ prove platform arithmetic passing task
        (view_to_dict view)
        begun.observations
        true
        (some true)
        (some document)
verify_bundle-closed_example =
    verify_bundle-closed platform arithmetic passing budget task view environment_done true true
      begun shown (begin-IsRun platform arithmetic budget view task (seen 0 "closed" ∷ []))

bundle_passes :
    verify_bundle platform arithmetic passing task begun.observations true
      (some true)
      (some document)
    ≡ ok (true, some null)
unfolding prove Outcome.◌>>=◌
bundle_passes =
    verify_bundle-closed platform arithmetic passing budget task view environment_done true true
      begun shown (begin-IsRun platform arithmetic budget view task (seen 0 "closed" ∷ []))

verify_bundle-IsAccepted_example :
    IsAccepted platform arithmetic passing task begun.observations true true document
verify_bundle-IsAccepted_example =
    verify_bundle-IsAccepted platform arithmetic passing task begun.observations true true document
      (some null) bundle_passes
