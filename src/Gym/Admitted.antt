-- ===== src/Gym/Admitted.antt =====
-- The results of `ReferenceGym.run`: what an admission and a learning update rest on.
use artifact_proof_lab.Base.{
  suc, String, ◌≡◌, refl, sym, ◌∙◌, ◌&&◌, Bool, Option, none, some, ◌==◌, if◌then◌else◌, eq_iff,
  and_true,
}
use artifact_proof_lab.Base.Outcome.{ok, raise, crash, require}
use artifact_proof_lab.Base.Exec.{
  Exec, lift, Triple-bind, Triple-pure, Triple-lift, Triple-any, Triple-if, Triple-given,
  Triple-both,
}
use artifact_proof_lab.Json.{Number, Fields}
use artifact_proof_lab.Platform.{Platform}
use artifact_proof_lab.Gym.Ledger.{to_document}
use artifact_proof_lab.Gym.Core.{
  TerminalReason, PublicTask, view_to_dict, agent_view, EpisodeResult, Arithmetic,
}
use artifact_proof_lab.Gym.Admission.{provenance_valid}
use artifact_proof_lab.Gym.Budget.{Budget, rounds, read_budget}
use artifact_proof_lab.Gym.Gateway.{
  HostSessionStart, HostGateway, Policy, Generator, LearningSink, ProofVerifier,
}
use artifact_proof_lab.Gym.Run.{Run, begin, loop}
use artifact_proof_lab.Gym.Finish.{
  is_valid, closed_ledger, provisional, finally, learn, semantic_valid, admit, finish_as,
  run_session, run,
}
use artifact_proof_lab.Gym.Untold.{close_result-ok, run_told}
use artifact_proof_lab.Gym.Invariant.{IsRun}
use artifact_proof_lab.Gym.Opening.{opening_of, begin-IsRun}
use artifact_proof_lab.Gym.Rounds.{Yields, loop-IsRun}
use artifact_proof_lab.Gym.Admissible.{
  closed-recorded, Semantic, semantic_valid-Semantic, receipt-IsResult, learned-IsResult, IsResult,
}

module _ (platform : Platform) (arithmetic : Arithmetic) (verifier : ProofVerifier) where
  module _ {S : Type 0} where
    admit-IsResult :
        (budget : Budget) (opening : Fields Number) (task : PublicTask) (reason : TerminalReason)
        (r : Run) (semantic : Bool)
        → IsRun platform arithmetic budget opening r
        → read_budget arithmetic task.budget ≡ ok budget
        → Semantic platform arithmetic verifier r reason semantic
        → Yields {S = S}
            (IsResult platform arithmetic verifier task)
            (admit platform arithmetic verifier task reason r semantic)
    unfolding admit
    admit-IsResult budget opening task reason r semantic at read meant =
        let evidence = provenance_valid arithmetic r.observations in
        let ledger = closed_ledger platform reason semantic (is_valid evidence) r in
        let asked =
          verifier.verify task r.observations semantic (some (is_valid evidence))
            (some (to_document ledger)) in
        Triple-bind (lift asked) _
          (Triple-lift {Q = λ proof s. asked ≡ ok proof} asked λ proof s e h. e)
          λ proof. Triple-pure _ λ s e.
            receipt-IsResult platform arithmetic verifier budget opening task reason r semantic
              evidence ledger proof at read refl meant
              (closed-recorded platform arithmetic budget opening reason semantic
                (is_valid evidence) r at)
              e

    learn-IsResult :
        (sink : Option (LearningSink S)) (task : PublicTask) (result : EpisodeResult)
        → IsResult platform arithmetic verifier task result
        → result.split ≡ task.split
        → Yields (IsResult platform arithmetic verifier task) (learn sink result)
    unfolding learn
    learn-IsResult none task result before same =
        Triple-if (result.admission.admitted && result.split == "train")
          (λ e. Triple-pure result λ s h. before) (λ e. Triple-pure result λ s h. before)
    learn-IsResult (some to) task result before same =
        Triple-if (result.admission.admitted && result.split == "train")
          (λ e.
            let (admitted, train) =
              and_true result.admission.admitted (result.split == "train") e in
            Triple-bind (to.update result) _ (Triple-any _) λ done. Triple-pure _ λ s h.
              learned-IsResult platform arithmetic verifier task result before admitted
                (sym same ∙ (eq_iff result.split "train").0 train))
          (λ e. Triple-pure result λ s h. before)

    admit-split :
        (task : PublicTask) (reason : TerminalReason) (r : Run) (semantic : Bool)
        → Yields {S = S}
            (λ result. result.split ≡ task.split)
            (admit platform arithmetic verifier task reason r semantic)
    unfolding admit provisional
    admit-split task reason r semantic =
        Triple-bind (lift _) _ (Triple-any _) λ proof. Triple-pure _ λ s h. refl

    finish_as-IsResult :
        (budget : Budget) (opening : Fields Number) (host : HostGateway S) (id : String)
        (task : PublicTask) (sink : Option (LearningSink S)) (r : Run)
        (reason : Option TerminalReason)
        → IsRun platform arithmetic budget opening r
        → read_budget arithmetic task.budget ≡ ok budget
        → Yields
            (IsResult platform arithmetic verifier task)
            (finish_as platform arithmetic verifier host id task sink r reason)
    unfolding finish_as
    finish_as-IsResult budget opening host id task sink r none at read =
        Triple-lift (raise (crash "AssertionError")) λ a s e h. cc
    finish_as-IsResult budget opening host id task sink r (some reason) at read =
        Triple-bind (semantic_valid host id reason r) _
          (semantic_valid-Semantic platform arithmetic verifier host id reason r)
          λ semantic. Triple-given λ meant.
            Triple-bind (admit platform arithmetic verifier task reason r semantic) _
              (Triple-both (admit-IsResult budget opening task reason r semantic at read meant)
                (admit-split task reason r semantic))
              λ result. Triple-given λ (before, same). learn-IsResult sink task result before same

    run_session-IsResult :
        (host : HostGateway S) (task : PublicTask) (policy : Policy S)
        (generator : Option (Generator S)) (sink : Option (LearningSink S))
        (start : HostSessionStart)
        → Yields
            (IsResult platform arithmetic verifier task)
            (run_session platform arithmetic verifier host task policy generator sink start)
    unfolding run_session
    run_session-IsResult host task policy generator sink start =
        Triple-bind (lift (agent_view task)) _ (Triple-any _) λ view.
          Triple-bind
            (lift (
              require (arithmetic.equal (view_to_dict start.agent_task) (view_to_dict view)) (
                crash "host returned an agent task surface inconsistent with the host descriptor")))
            _ (Triple-any _)
            λ same.
              Triple-bind {Q = λ budget s. read_budget arithmetic task.budget ≡ ok budget}
                (lift (read_budget arithmetic task.budget)) _
                (Triple-lift (read_budget arithmetic task.budget) λ budget s read h. read)
                λ budget. Triple-given λ read.
                  let opening = opening_of platform arithmetic budget start.agent_task task in
                  let first =
                    begin platform arithmetic start.agent_task task budget start.observations in
                  let fuel = suc (rounds budget.max_steps) in
                  Triple-bind
                    (loop platform arithmetic host start.session_id start.agent_task budget fuel
                      policy generator first)
                    _
                    (loop-IsRun platform arithmetic host start.session_id start.agent_task budget
                      opening fuel policy generator first
                      (begin-IsRun platform arithmetic budget start.agent_task task
                        start.observations))
                    λ r. Triple-given λ at.
                      finish_as-IsResult budget opening host start.session_id task sink r
                        r.terminal_reason at read

    finally-Yields :
        {A B : Type 0} {Q : A → Type 0} (body : Exec S A) (closing : Exec S B)
        → Yields Q body
        → Yields Q (finally body closing)
    unfolding finally
    finally-Yields body closing kept = record {
      run = λ s h a e. kept.run s tt a (close_result-ok (body s).0 (closing (body s).1).0 a e);
    }

    returned-IsResult :
        (host : HostGateway S) (task : PublicTask) (policy : Policy S)
        (generator : Option (Generator S)) (sink : Option (LearningSink S)) (s : S)
        (result : EpisodeResult)
        → (run platform arithmetic verifier host task policy generator sink s).0 ≡ ok result
        → IsResult platform arithmetic verifier task result
    unfolding run
    returned-IsResult host task policy generator sink s result e =
        (Triple-bind (host.start task)
            (λ start.
              finally
                (run_session platform arithmetic verifier host task policy generator sink start)
                (host.close start.session_id))
            (Triple-any (host.start task))
            λ start.
              finally-Yields
                (run_session platform arithmetic verifier host task policy generator sink start)
                (host.close start.session_id)
                (run_session-IsResult host task policy generator sink start)).run
          s tt result e

    -- Whatever the host, the policy, the generator, the sink and the proof verifier do, a run that
    -- returns has recorded a ledger that the verifier of documents accepts, and says so. An admitted
    -- result has ended with the environment, with no budget exhausted, within the numbers of steps
    -- and of generator calls and the summed cost that the task allows, with a valid semantic receipt
    -- and observations that are evidence, and the proof verifier has accepted its ledger. Only an
    -- admitted result of a training task says that it was learned from, and a run whose result does
    -- not say so gives the same result and the same state as the run without a sink.
    pub run-IsResult :
        (host : HostGateway S) (task : PublicTask) (policy : Policy S)
        (generator : Option (Generator S)) (sink : Option (LearningSink S)) (s : S)
        (result : EpisodeResult)
        → (run platform arithmetic verifier host task policy generator sink s).0 ≡ ok result
        → IsResult platform arithmetic verifier task result
          × (run platform arithmetic verifier host task policy generator sink s
              ≡ run platform arithmetic verifier host task policy generator
                  (if result.learning_updated then sink else none)
                  s)
    run-IsResult host task policy generator sink s result e = (
      returned-IsResult host task policy generator sink s result e,
      run_told platform arithmetic verifier host task policy generator sink result s e,
    )
