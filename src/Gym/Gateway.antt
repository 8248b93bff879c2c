-- ===== src/Gym/Gateway.antt =====
-- The protocols of gym/core.py and gym/host_boundary.py. A method acts on a state `S`, which
-- stands for all the objects behind it: it may change them and may raise.
use artifact_proof_lab.Base.{ℕ, String, Bool, Option, List}
use artifact_proof_lab.Base.Outcome.{Result}
use artifact_proof_lab.Base.Exec.{Exec}
use artifact_proof_lab.Json.{Json, Number, Fields}
use artifact_proof_lab.Gym.Core.{
  PolicyDecision, Observation, AgentTaskView, PublicTask, StepOutcome, EpisodeResult,
}

pub record Environment (S : Type 0) : Type 0 where
  pub reset : Exec S (List Observation)
  pub step : String → Option String → Exec S StepOutcome
  pub semantic_verdict : Exec S Bool
  -- `close`, where the object has that method
  pub close : Option (Exec S (Unit {0}))

pub record HostSessionStart : Type 0 where
  pub session_id : String
  pub agent_task : AgentTaskView
  pub observations : List Observation

pub record HostGateway (S : Type 0) : Type 0 where
  pub start : PublicTask → Exec S HostSessionStart
  pub step : String → String → Option String → Exec S StepOutcome
  pub semantic_verdict : String → Exec S Bool
  pub close : String → Exec S (Unit {0})

pub record Policy (S : Type 0) : Type 0 where
  pub decide : AgentTaskView → List Observation → List String → Exec S PolicyDecision

pub record Generator (S : Type 0) : Type 0 where
  pub generate : AgentTaskView → List Observation → ℕ → Exec S String

pub record LearningSink (S : Type 0) : Type 0 where
  pub update : EpisodeResult → Exec S (Unit {0})

-- Whether the proof is accepted, and its report.
abbrev pub Proof : Type 0
Proof = Bool × Option (Json Number)

-- The task, the observations, the semantic and the provenance receipt, and the ledger document.
pub record ProofVerifier : Type 0 where
  pub verify :
      PublicTask → List Observation → Bool → Option Bool → Option (Fields Number) → Result Proof
