-- ===== src/Gym/Untold.antt =====
-- A run of `ReferenceGym.run` of gym/core.py that does not learn leaves the sink alone.
use artifact_proof_lab.Base.{
  suc, String, ◌≡◌, refl, ap, sym, ◌&&◌, Bool, true, false, inl, inr, Bool-cases, Option, none,
  some, ◌==◌, if◌then◌else◌,
}
use artifact_proof_lab.Base.Outcome.{Result, ok, raise, crash, require, ok-injective}
use artifact_proof_lab.Base.Exec.{Exec, lift, pure, >>=-eq-ok, >>=-agree, ◌>>◌}
use artifact_proof_lab.Platform.{Platform}
use artifact_proof_lab.Gym.Core.{
  TerminalReason, PublicTask, EpisodeResult, agent_view, view_to_dict, Arithmetic,
}
use artifact_proof_lab.Gym.Budget.{rounds, read_budget}
use artifact_proof_lab.Gym.Gateway.{
  HostSessionStart, HostGateway, Policy, Generator, LearningSink, ProofVerifier,
}
use artifact_proof_lab.Gym.Run.{Run, loop, begin}
use artifact_proof_lab.Gym.Finish.{
  close_result, finally, learn, semantic_valid, admit, finish_as, run_session, run,
}

pub close_result-ok :
    {A B : Type 0} (result : Result A) (ended : Result B) (a : A)
    → close_result result ended ≡ ok a
    → result ≡ ok a
close_result-ok (raise e) ended a h = cc
close_result-ok (ok b) (raise e) a h = cc
close_result-ok (ok b) (ok c) a h = h

finally-agree :
    {S A B : Type 0} (body other : Exec S A) (closing : Exec S B) (s : S)
    → body s ≡ other s
    → finally body closing s ≡ finally other closing s
unfolding finally
finally-agree {S} {A} body other closing s same =
    ap (λ (ended : Result A × S). (close_result ended.0 (closing ended.1).0, (closing ended.1).1))
      same

finally-ok :
    {S A B : Type 0} (body : Exec S A) (closing : Exec S B) (s : S) (a : A)
    → (finally body closing s).0 ≡ ok a
    → (body s).0 ≡ ok a
unfolding finally
finally-ok body closing s a h = close_result-ok (body s).0 (closing (body s).1).0 a h

module _ {S : Type 0} where
  told_result :
      (to : LearningSink S) (before result : EpisodeResult) (s : S)
      → ((to.update before >> pure (record before { learning_updated = true })) s).0 ≡ ok result
      → result.learning_updated ≡ true
  told_result to before result s h =
      let (done, e, last, _) =
        >>=-eq-ok (to.update before) (λ done. pure (record before { learning_updated = true })) s
          h in
      ap (λ r. r.learning_updated) (sym (ok-injective last))

  learn_untold :
      (sink : Option (LearningSink S)) (before result : EpisodeResult) (s : S)
      → result.learning_updated ≡ false
      → (learn sink before s).0 ≡ ok result
      → learn sink before s ≡ learn none before s
  unfolding learn
  learn_untold none before result s untold h = refl
  learn_untold (some to) before result s untold h =
      go (before.admission.admitted && before.split == "train") h
    where
      go :
          (teaching : Bool)
          → ((if teaching
                then (to.update before >> pure (record before { learning_updated = true }))
                else pure before)
              s).0
            ≡ ok result
          → (if teaching
                then (to.update before >> pure (record before { learning_updated = true }))
                else pure before)
              s
            ≡ (if teaching then pure before else pure before) s
      go true h = cc (untold, told_result to before result s h)
      go false h = refl

module _ (platform : Platform) (arithmetic : Arithmetic) (verifier : ProofVerifier) {S : Type 0}
    (host : HostGateway S) (task : PublicTask) (sink : Option (LearningSink S))
    (result : EpisodeResult) (untold : result.learning_updated ≡ false) where
  finish_as_untold :
      (id : String) (r : Run) (reason : Option TerminalReason) (s : S)
      → (finish_as platform arithmetic verifier host id task sink r reason s).0 ≡ ok result
      → finish_as platform arithmetic verifier host id task sink r reason s
        ≡ finish_as platform arithmetic verifier host id task none r reason s
  unfolding finish_as
  finish_as_untold id r none s h = refl
  finish_as_untold id r (some reason) s h =
      >>=-agree (semantic_valid host id reason r) _ _ s result
        (λ semantic t.
          >>=-agree (admit platform arithmetic verifier task reason r semantic) _ _ t result
            λ before u. learn_untold sink before result u untold)
        h

  module _ (policy : Policy S) (generator : Option (Generator S)) where
    run_session_untold :
        (start : HostSessionStart) (s : S)
        → (run_session platform arithmetic verifier host task policy generator sink start s).0
          ≡ ok result
        → run_session platform arithmetic verifier host task policy generator sink start s
          ≡ run_session platform arithmetic verifier host task policy generator none start s
    unfolding run_session
    run_session_untold start s h =
        >>=-agree (lift (agent_view task)) _ _ s result
          (λ view t.
            >>=-agree
              (lift (
                require (arithmetic.equal (view_to_dict start.agent_task) (view_to_dict view)) (
                  crash
                    "host returned an agent task surface inconsistent with the host descriptor")))
              _ _ t result
              λ same u.
                >>=-agree (lift (read_budget arithmetic task.budget)) _ _ u result λ budget v.
                  >>=-agree
                    (loop platform arithmetic host start.session_id start.agent_task budget
                      (suc (rounds budget.max_steps)) policy generator
                      (begin platform arithmetic start.agent_task task budget start.observations))
                    _ _ v result λ r w. finish_as_untold start.session_id r r.terminal_reason w)
          h

    run_untold :
        (s : S)
        → (run platform arithmetic verifier host task policy generator sink s).0 ≡ ok result
        → run platform arithmetic verifier host task policy generator sink s
          ≡ run platform arithmetic verifier host task policy generator none s
    unfolding run
    run_untold s h =
        >>=-agree (host.start task) _ _ s result
          (λ start t returned.
            finally-agree
              (run_session platform arithmetic verifier host task policy generator sink start)
              (run_session platform arithmetic verifier host task policy generator none start)
              (host.close start.session_id) t
              (run_session_untold start t (
                finally-ok
                  (run_session platform arithmetic verifier host task policy generator sink start)
                  (host.close start.session_id) t result returned)))
          h

-- A run is the run without a sink, unless its result says that it was learned from.
pub run_told :
    (platform : Platform) (arithmetic : Arithmetic) (verifier : ProofVerifier) {S : Type 0}
    (host : HostGateway S) (task : PublicTask) (policy : Policy S)
    (generator : Option (Generator S)) (sink : Option (LearningSink S)) (result : EpisodeResult)
    (s : S)
    → (run platform arithmetic verifier host task policy generator sink s).0 ≡ ok result
    → run platform arithmetic verifier host task policy generator sink s
      ≡ run platform arithmetic verifier host task policy generator
          (if result.learning_updated then sink else none)
          s
run_told platform arithmetic verifier host task policy generator sink result s h =
    elim (Bool-cases result.learning_updated) [
      | inl learned ↦ rw learned refl
      | inr untold ↦ rw untold (
          run_untold platform arithmetic verifier host task sink result untold policy generator s h)
    ]
