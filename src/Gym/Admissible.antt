-- ===== src/Gym/Admissible.antt =====
-- What an admitted result of `ReferenceGym.run` of gym/core.py rests on, and its receipt.
use artifact_proof_lab.Base.{
  ◌≤◌, length, String, ◌≡◌, refl, ap, sym, ◌∙◌, ◌&&◌, not, Bool, true, false, Option, some, List,
  and_true, arith,
}
use artifact_proof_lab.Base.Outcome.{Result, ok, raise}
use artifact_proof_lab.Base.Exec.{Triple-pure, Triple-if}
use artifact_proof_lab.Json.{Json, Number, Fields}
use artifact_proof_lab.Platform.{Platform}
use artifact_proof_lab.Gym.Ledger.{LedgerEntry, to_document}
use artifact_proof_lab.Gym.Verify.{verify_ledger_document}
use artifact_proof_lab.Gym.Recording.{verify_ledger_document-recorded}
use artifact_proof_lab.Gym.Core.{
  TerminalReason, environment_done, reason_value, PublicTask, EpisodeResult, Arithmetic,
}
use artifact_proof_lab.Gym.Admission.{provenance_valid}
use artifact_proof_lab.Gym.Provenance.{IsEvidence, provenance_valid_iff}
use artifact_proof_lab.Gym.Budget.{Budget, rounds, read_budget}
use artifact_proof_lab.Gym.Gateway.{HostGateway, Proof, ProofVerifier}
use artifact_proof_lab.Gym.Run.{Run, dicts}
use artifact_proof_lab.Gym.Finish.{is_valid, closed_ledger, receipt, provisional, semantic_valid}
use artifact_proof_lab.Gym.Invariant.{Affordable, IsRun}
use artifact_proof_lab.Gym.Rounds.{Yields}

pub valid-ok : (checked : Result (Unit {0})) → is_valid checked ≡ true → checked ≡ ok tt
valid-ok (ok _) h = refl
valid-ok (raise e) h = cc

pub closed-recorded :
    (platform : Platform) (arithmetic : Arithmetic) (budget : Budget) (opening : Fields Number)
    (reason : TerminalReason) (semantic provenance : Bool) (r : Run)
    → IsRun platform arithmetic budget opening r
    → verify_ledger_document platform
        (to_document (closed_ledger platform reason semantic provenance r))
      ≡ ok tt
unfolding closed_ledger
closed-recorded platform arithmetic budget opening reason semantic provenance r at =
    verify_ledger_document-recorded platform (reason_value reason) semantic provenance
      r.budget_exhausted r.ledger (dicts r.observations) r.terminal_cause at.recorded

module _ (platform : Platform) (arithmetic : Arithmetic) (verifier : ProofVerifier) where
  -- The budgets that the task sets: decisions, of which the trajectory shows the performed ones,
  -- calls of the generator, and the summed costs of the observations.
  pub record IsWithin (task : PublicTask) (result : EpisodeResult) : Type 0 where
    pub budget : Budget
    pub is_budget : read_budget arithmetic task.budget ≡ ok budget
    pub steps : length result.trajectory ≤ rounds budget.max_steps
    pub calls : result.generative_calls ≤ rounds budget.max_generative
    pub costs : Affordable arithmetic budget result.observations

  -- What an admission rests on.
  pub record IsAdmissible (task : PublicTask) (result : EpisodeResult) : Type 0 where
    pub reason : result.terminal_reason ≡ "ENVIRONMENT_DONE"
    pub flagged : result.budget_exhausted ≡ false
    pub within : IsWithin task result
    pub semantic : result.admission.semantic_valid ≡ true
    pub evidence : IsEvidence arithmetic result.observations
    pub proof :
        (report : Option (Json Number)) × (verifier.verify task result.observations true
            (some true)
            (some (to_document result.ledger_entries))
          ≡ ok (true, report))

  pub record IsResult (task : PublicTask) (result : EpisodeResult) : Type 0 where
    pub recorded : verify_ledger_document platform (to_document result.ledger_entries) ≡ ok tt
    pub trajectory : result.admission.trajectory_valid ≡ true
    pub admissible : result.admission.admitted ≡ true → IsAdmissible task result
    pub learned :
        result.learning_updated ≡ true → (result.admission.admitted ≡ true) × (task.split ≡ "train")

  -- What the semantic receipt says of the end of the loop.
  abbrev pub Semantic : Run → TerminalReason → Bool → Type 0
  Semantic r reason semantic =
      semantic ≡ true → (reason ≡ environment_done) × (r.budget_exhausted ≡ false) × (r.done ≡ true)

  pub semantic_valid-Semantic :
      {S : Type 0} (host : HostGateway S) (id : String) (reason : TerminalReason) (r : Run)
      → Yields (λ b. Semantic r reason b) (semantic_valid host id reason r)
  unfolding semantic_valid
  semantic_valid-Semantic host id environment_done r =
      Triple-if (r.done && (not r.budget_exhausted && true))
        (λ e. record { run = λ s h a eq valid. (refl, ground arith, ground arith) })
        (λ e. Triple-pure false λ s h valid. cc)
  semantic_valid-Semantic host id reason r =
      Triple-if (r.done && (not r.budget_exhausted && false)) (λ e. absurd (ground arith))
        (λ e. Triple-pure false λ s h valid. cc)

  -- The result of a run that closes its ledger, from the verifier's answer on.
  pub receipt-IsResult :
      (budget : Budget) (opening : Fields Number) (task : PublicTask) (reason : TerminalReason)
      (r : Run) (semantic : Bool) (evidence : Result (Unit {0})) (ledger : List LedgerEntry)
      (proof : Proof)
      → IsRun platform arithmetic budget opening r
      → read_budget arithmetic task.budget ≡ ok budget
      → evidence ≡ provenance_valid arithmetic r.observations
      → Semantic r reason semantic
      → verify_ledger_document platform (to_document ledger) ≡ ok tt
      → verifier.verify task r.observations semantic
          (some (is_valid evidence))
          (some (to_document ledger))
        ≡ ok proof
      → IsResult task (
          provisional arithmetic task r reason
            (receipt r reason semantic evidence
              (verify_ledger_document platform (to_document ledger))
              proof)
            ledger)
  unfolding provisional receipt
  receipt-IsResult budget opening task reason r semantic evidence ledger (integrity, report) at read
        same meant sound proved =
      record {
        recorded = sound;
        trajectory = ap is_valid sound;
        admissible = λ admitted.
            let (means, rest) = and_true _ _ admitted in
            let (proven, later) = and_true (is_valid evidence) _ rest in
            let (chained, intact) = and_true _ integrity later in
            let (reasoned, flagged, done) = meant means in
            let (short, fine) = at.ended done in
            record {
              reason = ap reason_value reasoned;
              flagged = flagged;
              within = record {
                budget = budget;
                is_budget = read;
                steps = omega (arith, short, at.steps);
                calls = at.calls;
                costs = fine;
              };
              semantic = means;
              evidence =
                  (provenance_valid_iff arithmetic r.observations).0
                    (sym same ∙ valid-ok evidence proven);
              proof = (report, cc);
            };
        learned = λ updated. cc;
      }

  pub learned-IsResult :
      (task : PublicTask) (result : EpisodeResult)
      → IsResult task result
      → result.admission.admitted ≡ true
      → task.split ≡ "train"
      → IsResult task (record result { learning_updated = true })
  learned-IsResult task result before admitted train = record {
    recorded = before.recorded;
    trajectory = before.trajectory;
    admissible = λ e.
        let fine = before.admissible admitted in
        record {
          reason = fine.reason;
          flagged = fine.flagged;
          within = record {
            budget = fine.within.budget;
            is_budget = fine.within.is_budget;
            steps = fine.within.steps;
            calls = fine.within.calls;
            costs = fine.within.costs;
          };
          semantic = fine.semantic;
          evidence = fine.evidence;
          proof = fine.proof;
        };
    learned = λ e. (admitted, train);
  }
