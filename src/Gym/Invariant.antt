-- ===== src/Gym/Invariant.antt =====
-- The invariant of the local variables of `ReferenceGym.run`, and the steps that keep it.
use artifact_proof_lab.Base.{
  ℕ, ◌+◌, ◌≤◌, ◌<◌, String, ◌≡◌, refl, ap, sym, ◌∙◌, subst, Bool, true, false, Option, inl, inr,
  none, some, List, [], ◌∷◌, ◌++◌, length, length-append, map, Bool-cases, arith,
}
use artifact_proof_lab.Base.Int.{ℤ, pos, negsuc}
use artifact_proof_lab.Json.{Number, Fields}
use artifact_proof_lab.Platform.{Platform}
use artifact_proof_lab.Gym.Ledger.{
  LedgerEntry, root_sha256, append, decision_payload, action_payload, record_decision,
  record_action_result,
}
use artifact_proof_lab.Gym.Recording.{Recording, decided, acted}
use artifact_proof_lab.Gym.Core.{
  TerminalReason, environment_done, tool_cost_budget_exhausted, step_budget_exhausted,
  generative_budget_exhausted, PolicyDecision, Observation, observation_to_dict, StepOutcome,
  Arithmetic,
}
use artifact_proof_lab.Gym.Admission.{tool_cost}
use artifact_proof_lab.Gym.Budget.{Budget, rounds, reached, over_cost}
use artifact_proof_lab.Gym.Run
use artifact_proof_lab.Gym.Run.{
  Run, dicts, stop, exhaust, host_task_commitment, begin, decision_dict, candidate_digest, settled,
}

-- The reasons that set `done`, and those that set `budget_exhausted`.
abbrev pub is_done : Option TerminalReason → Bool
is_done (some environment_done) = true
is_done _ = false

abbrev pub is_exhausted : Option TerminalReason → Bool
is_exhausted (some tool_cost_budget_exhausted) = true
is_exhausted (some step_budget_exhausted) = true
is_exhausted (some generative_budget_exhausted) = true
is_exhausted _ = false

pub reached_iff : (m : ℤ) (n : ℕ) → n ≤ rounds m → reached m n ≡ false → n < rounds m
unfolding reached
reached_iff (pos m) n most h = ground arith
reached_iff (negsuc m) n most h = cc

dicts-append : (os ps : List Observation) → dicts (os ++ ps) ≡ dicts os ++ dicts ps
dicts-append [] ps = refl
dicts-append (o ∷ os) ps = ap (λ ds. observation_to_dict o ∷ ds) (dicts-append os ps)

-- The summed costs do not exceed the limit, if there is one.
abbrev pub Affordable : Arithmetic → Budget → List Observation → Type 0
Affordable arithmetic budget os =
    (limit : String)
    → budget.max_tool_cost ≡ some limit
    → arithmetic.exceeds (arithmetic.sum (map (λ o. o.cost) os)) limit ≡ false

over_cost-Affordable :
    (arithmetic : Arithmetic) (budget : Budget) (os : List Observation)
    → over_cost arithmetic budget os ≡ false
    → Affordable arithmetic budget os
unfolding over_cost tool_cost
over_cost-Affordable arithmetic budget os under limit limited = rw limited at under

-- A decision that waits for its result is not in the trajectory yet.
abbrev pub waiting : Option String → ℕ
waiting none = 0
waiting (some hash) = 1

-- The payload of the first entry.
unfoldable pub first_payload : List LedgerEntry → Option (Fields Number)
first_payload [] = none
first_payload (e ∷ es) = some e.payload

pub first_payload-append :
    (platform : Platform) (kind : String) (payload first : Fields Number) (es : List LedgerEntry)
    → first_payload es ≡ some first
    → first_payload (append platform kind payload es) ≡ some first
unfolding first_payload append
first_payload-append platform kind payload first [] e = cc
first_payload-append platform kind payload first (f ∷ es) e = e

-- `opening` is the payload of the start entry.
module _ (platform : Platform) (arithmetic : Arithmetic) (budget : Budget)
    (opening : Fields Number) where
  -- The variables where the ledger waits for the result of `pending`.
  pub record IsAt (pending : Option String) (r : Run) : Type 0 where
    pub recorded : Recording platform r.ledger (dicts r.observations) pending
    pub opened : first_payload r.ledger ≡ some opening
    pub idle : r.terminal_reason ≡ none → r.terminal_cause ≡ none
    pub candidates : length r.generated_candidates ≡ r.generative_calls
    pub calls : r.generative_calls ≤ rounds budget.max_generative
    pub steps : r.steps_taken ≤ rounds budget.max_steps
    pub flag_done : r.done ≡ is_done r.terminal_reason
    pub taken : r.terminal_reason ≡ none → length r.trajectory + waiting pending ≤ r.steps_taken
    pub ended :
        r.done ≡ true
        → (length r.trajectory ≤ r.steps_taken) × Affordable arithmetic budget r.observations
    pub flag_exhausted : r.budget_exhausted ≡ is_exhausted r.terminal_reason

  -- Between two rounds, or after the last one.
  abbrev pub IsRun : Run → Type 0
  IsRun r = IsAt r.terminal_cause r

  alive :
      (pending : Option String) (r : Run)
      → IsAt pending r
      → r.terminal_reason ≡ none
      → ¬ (r.done ≡ true)
  alive pending r at live done =
      let other : r.done ≡ false = at.flag_done ∙ ap is_done live in cc (other, done)

  -- An end that is not for a budget, on account of the decision that waits.
  pub stop-IsRun :
      (step hash : String) (reason : TerminalReason) (r : Run)
      → IsAt (some hash) r
      → r.terminal_reason ≡ none
      → is_done (some reason) ≡ false
      → is_exhausted (some reason) ≡ false
      → IsRun (stop step reason (some hash) r)
  stop-IsRun step hash reason r at live not_done within = record {
    recorded = at.recorded;
    opened = at.opened;
    idle = λ e. cc;
    candidates = at.candidates;
    calls = at.calls;
    steps = at.steps;
    flag_done = at.flag_done ∙ ap is_done live ∙ sym not_done;
    taken = λ e. cc;
    ended = λ done. absurd (alive (some hash) r at live done);
    flag_exhausted = at.flag_exhausted ∙ ap is_exhausted live ∙ sym within;
  }

  pub exhaust-IsRun :
      (pending : Option String) (reason : TerminalReason) (r : Run)
      → IsAt pending r
      → r.terminal_reason ≡ none
      → is_done (some reason) ≡ false
      → is_exhausted (some reason) ≡ true
      → IsRun (exhaust reason pending r)
  exhaust-IsRun pending reason r at live not_done over = record {
    recorded = at.recorded;
    opened = at.opened;
    idle = λ e. cc;
    candidates = at.candidates;
    calls = at.calls;
    steps = at.steps;
    flag_done = at.flag_done ∙ ap is_done live ∙ sym not_done;
    taken = λ e. cc;
    ended = λ done. absurd (alive pending r at live done);
    flag_exhausted = sym over;
  }

  pub decided-IsAt :
      (d : PolicyDecision) (r : Run)
      → IsAt none r
      → r.steps_taken < rounds budget.max_steps
      → IsAt
          (some (root_sha256 (Run.decided platform arithmetic d r).ledger))
          (Run.decided platform arithmetic d r)
  unfolding Run.decided record_decision
  decided-IsAt d r at more = record {
    recorded =
        decided (decision_dict platform arithmetic d) r.ledger (dicts r.observations) at.recorded;
    opened =
        first_payload-append platform "DECISION"
          (decision_payload platform (decision_dict platform arithmetic d) (dicts r.observations))
          opening r.ledger at.opened;
    idle = at.idle;
    candidates = at.candidates;
    calls = at.calls;
    steps = omega (arith, more);
    flag_done = at.flag_done;
    taken = λ e. omega (arith, at.taken e);
    ended = λ done. let (short, fine) = at.ended done in (omega (arith, short), fine);
    flag_exhausted = at.flag_exhausted;
  }

  pub acted-IsAt :
      (hash action : String) (candidate : Option String) (outcome : StepOutcome) (r : Run)
      → IsAt (some hash) r
      → r.terminal_reason ≡ none
      → IsAt none (Run.acted platform arithmetic hash action candidate outcome r)
  unfolding Run.acted record_action_result
  acted-IsAt hash action candidate outcome r at live = record {
    recorded = rw (dicts-append r.observations outcome.observations) (
        acted hash action (dicts outcome.observations) outcome.done outcome.accepted_candidate
          (candidate_digest platform arithmetic candidate) r.ledger (dicts r.observations)
          at.recorded);
    opened =
        first_payload-append platform "ACTION_RESULT"
          (action_payload platform hash action (dicts outcome.observations) outcome.done
            outcome.accepted_candidate (candidate_digest platform arithmetic candidate))
          opening r.ledger at.opened;
    idle = at.idle;
    candidates = at.candidates;
    calls = at.calls;
    steps = at.steps;
    flag_done = at.flag_done;
    taken = λ e. omega (arith, length-append r.trajectory (action ∷ []), at.taken e);
    ended = λ done. absurd (alive (some hash) r at live done);
    flag_exhausted = at.flag_exhausted;
  }

  pub settled-IsRun :
      (outcome : StepOutcome) (r : Run)
      → IsAt none r
      → r.terminal_reason ≡ none
      → IsRun (settled platform arithmetic budget outcome r)
  unfolding settled
  settled-IsRun outcome r at live = elim (Bool-cases (over_cost arithmetic budget r.observations)) [
    | inl over ↦ rw over (exhaust-IsRun none tool_cost_budget_exhausted r at live refl refl)
    | inr under ↦ rw under (elim (Bool-cases outcome.done) [
      | inl done ↦ rw done (record {
        recorded =
            subst (λ p. Recording platform r.ledger (dicts r.observations) p) (sym (at.idle live))
              at.recorded;
        opened = at.opened;
        idle = λ e. cc;
        candidates = at.candidates;
        calls = at.calls;
        steps = at.steps;
        flag_done = refl;
        taken = λ e. cc;
        ended = λ done. (
          omega (arith, at.taken live),
          over_cost-Affordable arithmetic budget r.observations under,
        );
        flag_exhausted = at.flag_exhausted ∙ ap is_exhausted live;
      })
      | inr more ↦ rw more (subst (λ p. IsAt p r) (sym (at.idle live)) at)
    ])
  ]

  -- The variables with one more candidate.
  pub candidate-IsAt :
      (pending : Option String) (candidate : String) (r : Run)
      → IsAt pending r
      → r.generative_calls < rounds budget.max_generative
      → IsAt pending (record r {
        generative_calls = r.generative_calls + 1;
        generated_candidates = r.generated_candidates ++ candidate ∷ [];
      })
  candidate-IsAt pending candidate r at more = record {
    recorded = at.recorded;
    opened = at.opened;
    idle = at.idle;
    candidates =
        omega (arith, length-append r.generated_candidates (candidate ∷ []), at.candidates);
    calls = omega (arith, more);
    steps = at.steps;
    flag_done = at.flag_done;
    taken = at.taken;
    ended = at.ended;
    flag_exhausted = at.flag_exhausted;
  }
