-- ===== src/Gym/Budget.antt =====
-- The budgets that `ReferenceGym.run` of gym/core.py reads from a task.
use artifact_proof_lab.Base.{ℕ, String, Bool, true, false, Option, none, some, List, leb}
use artifact_proof_lab.Base.Int.{ℤ, pos, negsuc}
use artifact_proof_lab.Base.Outcome.{crash, Result, ok, raise, ◌>>=◌}
use artifact_proof_lab.Json.{Json, Number, Fields, null, get}
use artifact_proof_lab.Gym.Core.{Observation, Arithmetic}
use artifact_proof_lab.Gym.Admission.{tool_cost}

-- The budgets of a task.
pub record Budget : Type 0 where
  pub max_steps : ℤ
  pub max_generative : ℤ
  pub max_tool_cost : Option String

-- n >= m
unfoldable pub reached : ℤ → ℕ → Bool
reached (pos m) n = leb m n
reached (negsuc m) n = true

-- The rounds that a number of steps allows.
abbrev pub rounds : ℤ → ℕ
rounds (pos m) = m
rounds (negsuc m) = 0

module _ (arithmetic : Arithmetic) where
  abbrev required_int : Option (Json Number) → Result ℤ
  required_int none = raise (crash "KeyError: max_steps")
  required_int (some v) = arithmetic.to_int v

  -- 0 where the value is missing or None
  abbrev or_zero : Option (Json Number) → Result ℤ
  or_zero none = ok (pos 0)
  or_zero (some null) = ok (pos 0)
  or_zero (some v) = arithmetic.to_int v

  abbrev or_none : Option (Json Number) → Result (Option String)
  unfolding ◌>>=◌
  or_none none = ok none
  or_none (some null) = ok none
  or_none (some v) = arithmetic.to_float v >>= λ f. ok (some f)

  unfoldable pub read_budget : Fields Number → Result Budget
  unfolding ◌>>=◌ get
  read_budget budget = do
    max_steps ← required_int (get "max_steps" budget)
    max_generative ← or_zero (get "max_generative_calls" budget)
    max_tool_cost ← or_none (get "max_tool_cost" budget)
    ok (record {
      max_steps = max_steps;
      max_generative = max_generative;
      max_tool_cost = max_tool_cost;
    })

  -- max_tool_cost is not None and _tool_cost(observations) > max_tool_cost
  unfoldable pub over_cost : Budget → List Observation → Bool
  unfolding tool_cost
  over_cost budget os = elim budget.max_tool_cost [
    | none ↦ false
    | some limit ↦ arithmetic.exceeds (tool_cost arithmetic os) limit
  ]
