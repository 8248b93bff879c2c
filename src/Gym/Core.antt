-- ===== src/Gym/Core.antt =====
-- The data of gym/core.py: decisions, observations, tasks, outcomes and results. The budget, the
-- environment and the metadata of a task are the JSON values that its file gives.
use artifact_proof_lab.Base.{ℕ, String, Bool, Option, none, some, List, [], ◌∷◌, map}
use artifact_proof_lab.Base.Int.{ℤ}
use artifact_proof_lab.Base.Text.{chars, of_chars}
use artifact_proof_lab.Base.Outcome.{Result, ok, raise, crash, ◌>>=◌}
use artifact_proof_lab.Json.{
  Json, Number, Fields, int, null, num, str, arr, obj, get, keys, elements, items_of, fields_of,
}
use artifact_proof_lab.Gym.Ledger.{LedgerEntry}

pub data DecisionKind : Type 0 where
  select defer_tie defer_no_support defer_no_admissible call_generative : DecisionKind

-- DecisionKind.value
unfoldable pub kind_value : DecisionKind → String
kind_value select = "SELECT"
kind_value defer_tie = "DEFER_TIE"
kind_value defer_no_support = "DEFER_NO_SUPPORT"
kind_value defer_no_admissible = "DEFER_NO_ADMISSIBLE"
kind_value call_generative = "CALL_GENERATIVE"

pub data TerminalReason : Type 0 where
  environment_done tool_cost_budget_exhausted step_budget_exhausted : TerminalReason
  generative_budget_exhausted generator_unavailable : TerminalReason
  action_unsupported invalid_policy_action : TerminalReason

-- TerminalReason.value
unfoldable pub reason_value : TerminalReason → String
reason_value environment_done = "ENVIRONMENT_DONE"
reason_value tool_cost_budget_exhausted = "TOOL_COST_BUDGET_EXHAUSTED"
reason_value step_budget_exhausted = "STEP_BUDGET_EXHAUSTED"
reason_value generative_budget_exhausted = "GENERATIVE_BUDGET_EXHAUSTED"
reason_value generator_unavailable = "GENERATOR_UNAVAILABLE"
reason_value action_unsupported = "ACTION_UNSUPPORTED"
reason_value invalid_policy_action = "INVALID_POLICY_ACTION"

pub record PolicyDecision : Type 0 where
  pub kind : DecisionKind
  pub action : Option String
  pub rationale : String

pub record Observation : Type 0 where
  pub observation_id : String
  pub source_lineage_root : String
  pub check_id : String
  pub probe_id : String
  pub attempt_id : ℤ
  pub sequence_index : ℤ
  pub logical_tick : ℤ
  pub observation_type : String
  pub status : String
  pub value : Json Number
  pub cost : Number
  pub raw_payload_ref : Option String

-- A text or None.
abbrev pub text_or_null : Option String → Json Number
text_or_null none = null
text_or_null (some s) = str s

abbrev pub texts : List String → Json Number
texts ss = arr (items_of (map (λ s. str s) ss))

-- Observation.to_dict
unfoldable pub observation_to_dict : Observation → Json Number
observation_to_dict o = obj (
    fields_of (
      ("observation_id", str o.observation_id)
      ∷ ("source_lineage_root", str o.source_lineage_root)
      ∷ ("check_id", str o.check_id)
      ∷ ("probe_id", str o.probe_id)
      ∷ ("attempt_id", num (int o.attempt_id))
      ∷ ("sequence_index", num (int o.sequence_index))
      ∷ ("logical_tick", num (int o.logical_tick))
      ∷ ("observation_type", str o.observation_type)
      ∷ ("status", str o.status)
      ∷ ("value", o.value)
      ∷ ("cost", num o.cost)
      ∷ ("raw_payload_ref", text_or_null o.raw_payload_ref)
      ∷ []))

pub record AgentTaskView : Type 0 where
  pub task_id : String
  pub domain : String
  pub description : String
  pub allowed_actions : List String
  pub budget : Fields Number
  pub public_tests : List String
  pub public_inputs : List (Json Number)

pub record PublicTask : Type 0 where
  pub task_id : String
  pub domain : String
  pub skill_targets : List String
  pub description : String
  pub environment : Fields Number
  pub allowed_actions : List String
  pub budget : Fields Number
  pub split : String
  pub public_tests : List String
  pub metadata : Fields Number

-- asdict(view)
unfoldable pub view_to_dict : AgentTaskView → Json Number
view_to_dict v = obj (
    fields_of (
      ("task_id", str v.task_id)
      ∷ ("domain", str v.domain)
      ∷ ("description", str v.description)
      ∷ ("allowed_actions", texts v.allowed_actions)
      ∷ ("budget", obj v.budget)
      ∷ ("public_tests", texts v.public_tests)
      ∷ ("public_inputs", arr (items_of v.public_inputs))
      ∷ []))

-- asdict(task)
unfoldable pub task_to_dict : PublicTask → Json Number
task_to_dict t = obj (
    fields_of (
      ("task_id", str t.task_id)
      ∷ ("domain", str t.domain)
      ∷ ("skill_targets", texts t.skill_targets)
      ∷ ("description", str t.description)
      ∷ ("environment", obj t.environment)
      ∷ ("allowed_actions", texts t.allowed_actions)
      ∷ ("budget", obj t.budget)
      ∷ ("split", str t.split)
      ∷ ("public_tests", texts t.public_tests)
      ∷ ("metadata", obj t.metadata)
      ∷ []))

-- tuple(value): the elements of a list, the characters of a text, the keys of an object
unfoldable pub tuple_of : Option (Json Number) → Result (List (Json Number))
tuple_of none = ok []
tuple_of (some (arr vs)) = ok (elements vs)
tuple_of (some (str s)) = ok (map (λ c. str (of_chars (c ∷ []))) (chars s))
tuple_of (some (obj fs)) = ok (map (λ k. str k) (keys fs))
tuple_of _ = raise (crash "object is not iterable")

unfoldable pub agent_view : PublicTask → Result AgentTaskView
agent_view t = do
  public_inputs ← tuple_of (get "public_inputs" t.environment)
  ok (record {
    task_id = t.task_id;
    domain = t.domain;
    description = t.description;
    allowed_actions = t.allowed_actions;
    budget = t.budget;
    public_tests = t.public_tests;
    public_inputs = public_inputs;
  })

pub record StepOutcome : Type 0 where
  pub observations : List Observation
  pub done : Bool
  pub accepted_candidate : Option Bool

pub record AdmissionReceipt : Type 0 where
  pub semantic_valid : Bool
  pub provenance_valid : Bool
  pub trajectory_valid : Bool
  pub integrity_valid : Bool
  pub admitted : Bool
  pub reason : String
  pub proof_report : Option (Json Number)

-- A reward is kept as the text of its `repr`.
pub record EpisodeResult : Type 0 where
  pub task_id : String
  pub split : String
  pub domain : String
  pub trajectory : List String
  pub observations : List Observation
  pub admission : AdmissionReceipt
  pub reward_channels : List (String × String)
  pub learning_updated : Bool
  pub generative_calls : ℕ
  pub terminal_reason : String
  pub budget_exhausted : Bool
  pub generated_candidates : List String
  pub ledger_root_sha256 : Option String
  pub ledger_entry_count : ℕ
  pub ledger_entries : List LedgerEntry

-- EpisodeResult.accepted
unfoldable pub accepted : EpisodeResult → Bool
accepted result = result.admission.admitted

-- What the code takes from Python's numbers: conversions, the arithmetic of floats, and ==.
pub record Arithmetic : Type 0 where
  -- math.isfinite(float(cost)) and cost < 0
  pub is_finite : Number → Bool
  pub is_negative : Number → Bool
  -- sum(float(cost) for cost in costs), the negation of a float, and a > b, floats by their repr
  pub sum : List Number → String
  pub negate : String → String
  pub exceeds : String → String → Bool
  -- int(value) and float(value), or the exception that they raise
  pub to_int : Json Number → Result ℤ
  pub to_float : Json Number → Result String
  -- a / b, and math.isfinite(f) and 0.0 <= f <= 1.0
  pub ratio : ℕ → ℕ → String
  pub is_rate : String → Bool
  -- float(n)
  pub float_of : ℕ → String
  -- a == b
  pub equal : Json Number → Json Number → Bool
