-- ===== src/Gym/Memory.antt =====
-- `MemoryLearningSink` of gym/core.py, on a state beside that of the other parties of a run.
use artifact_proof_lab.Base.{
  ℕ, String, ◌≡◌, subst, Option, none, some, List, [], ◌∷◌, ◌++◌, some-eq,
}
use artifact_proof_lab.Base.Outcome.{Result, ok}
use artifact_proof_lab.Base.Exec.{Exec, Keeps}
use artifact_proof_lab.Gym.Core.{Observation, AgentTaskView, EpisodeResult}
use artifact_proof_lab.Gym.Gateway.{HostGateway, Policy, Generator, LearningSink}
use artifact_proof_lab.Gym.Keeping.{Respects}

-- The sink's list beside the state of the other parties.
pub record Remembering (S : Type 0) : Type 0 where
  pub updates : List String
  pub other : S

module _ {S : Type 0} where
  -- MemoryLearningSink.update
  unfoldable pub memory_update : EpisodeResult → Exec (Remembering S) (Unit {0})
  memory_update result m = (ok tt, record m { updates = m.updates ++ result.task_id ∷ [] })

  abbrev pub memory_sink : LearningSink (Remembering S)
  memory_sink = record { update = memory_update }

  abbrev put_other : {A : Type 0} → Remembering S → Result A × S → Result A × Remembering S
  put_other m (result, other) = (result, record m { other = other })

  -- What another party does.
  unfoldable pub on_other : {A : Type 0} → Exec S A → Exec (Remembering S) A
  on_other method m = put_other m (method m.other)

  unfoldable pub other_host : HostGateway S → HostGateway (Remembering S)
  unfolding on_other
  other_host h = record {
    start = λ task. on_other (h.start task);
    step = λ id action candidate. on_other (h.step id action candidate);
    semantic_verdict = λ id. on_other (h.semantic_verdict id);
    close = λ id. on_other (h.close id);
  }

  unfoldable pub other_policy : Policy S → Policy (Remembering S)
  unfolding on_other
  other_policy p = record { decide = λ view os trajectory. on_other (p.decide view os trajectory) }

  unfoldable pub other_generator : Option (Generator S) → Option (Generator (Remembering S))
  unfolding on_other
  other_generator none = none
  other_generator (some g) =
      some (record { generate = λ view os attempt. on_other (g.generate view os attempt) })

  abbrev pub Holds : List String → Remembering S → Type 0
  Holds log m = m.updates ≡ log

  pub on_other-Keeps :
      {A : Type 0} (method : Exec S A) (log : List String) → Keeps (Holds log) (on_other method)
  unfolding on_other
  on_other-Keeps method log = record { after = λ m same. same }

  other_generator-Keeps :
      (generator : Option (Generator S)) (log : List String) (g : Generator (Remembering S))
      → other_generator generator ≡ some g
      → (view : AgentTaskView) (os : List Observation) (attempt : ℕ)
      → Keeps (Holds log) (g.generate view os attempt)
  unfolding other_generator
  other_generator-Keeps none log g e = cc
  other_generator-Keeps (some own) log g e = λ view os attempt.
      subst (λ h. Keeps (Holds log) (h.generate view os attempt)) (some-eq e)
        (on_other-Keeps (own.generate view os attempt) log)

  pub others_keep :
      (host : HostGateway S) (policy : Policy S) (generator : Option (Generator S))
      (log : List String)
      → Respects
          (Holds log)
          (other_host host)
          (other_policy policy)
          (other_generator generator)
          none
  unfolding other_host other_policy
  others_keep host policy generator log = record {
    steps = λ id action candidate. on_other-Keeps (host.step id action candidate) log;
    verdicts = λ id. on_other-Keeps (host.semantic_verdict id) log;
    decides = λ view os trajectory. on_other-Keeps (policy.decide view os trajectory) log;
    generates = λ g e. other_generator-Keeps generator log g e;
    updates = λ to e. cc;
  }
