-- ===== src/Gym/MemoryLaws.antt =====
-- What `ReferenceGym.run` of gym/core.py leaves in a `MemoryLearningSink`.
use artifact_proof_lab.Base.{
  suc, String, ◌≡◌, refl, ap, sym, ◌∙◌, ◌&&◌, Bool, true, false, Option, none, some, List, [], ◌∷◌,
  ◌++◌, append-nil, ◌==◌, if◌then◌else◌,
}
use artifact_proof_lab.Base.Outcome.{ok, raise, crash, require}
use artifact_proof_lab.Base.Exec.{
  Exec, lift, Keeps, Triple, Triple-bind, Triple-pure, Triple-lift, Triple-keep, Triple-if,
}
use artifact_proof_lab.Platform.{Platform}
use artifact_proof_lab.Gym.Core.{
  TerminalReason, PublicTask, EpisodeResult, accepted, agent_view, view_to_dict, Arithmetic,
}
use artifact_proof_lab.Gym.Budget.{rounds, read_budget}
use artifact_proof_lab.Gym.Gateway.{HostSessionStart, HostGateway, Policy, Generator, ProofVerifier}
use artifact_proof_lab.Gym.Run.{Run, loop, begin}
use artifact_proof_lab.Gym.Finish.{
  finally, learn, semantic_valid, provisional, admit, finish_as, run_session, run,
}
use artifact_proof_lab.Gym.Untold.{close_result-ok}
use artifact_proof_lab.Gym.Keeping.{loop-Keeps, semantic_valid-Keeps}
use artifact_proof_lab.Gym.Memory.{
  Holds, on_other-Keeps, others_keep, Remembering, memory_update, memory_sink, on_other, other_host,
  other_policy, other_generator,
}

-- The result teaches: it is admitted, and the task is for training.
abbrev pub teaches : PublicTask → EpisodeResult → Bool
teaches task result = accepted result && task.split == "train"

-- The task's identifier, if the result teaches.
abbrev pub lesson : PublicTask → EpisodeResult → List String
lesson task result = if teaches task result then task.task_id ∷ [] else []

-- The sink has been told of a result that teaches, and of no other.
pub record IsRemembered {S : Type 0} (task : PublicTask) (log : List String)
    (result : EpisodeResult) (m : Remembering S) : Type 0 where
  pub told : m.updates ≡ log ++ lesson task result
  pub learned : result.learning_updated ≡ teaches task result

-- What `admit` gives, before learning.
record IsFresh (task : PublicTask) (result : EpisodeResult) : Type 0 where
  identity : result.task_id ≡ task.task_id
  split : result.split ≡ task.split
  unlearned : result.learning_updated ≡ false

nothing_told :
    {S : Type 0} (task : PublicTask) (log : List String) (result : EpisodeResult)
    (m : Remembering S)
    → IsFresh task result
    → teaches task result ≡ false
    → m.updates ≡ log
    → IsRemembered task log result m
nothing_told task log result m fresh silent same = record {
  told =
      same ∙ sym (ap (λ b. log ++ (if b then task.task_id ∷ [] else [])) silent ∙ append-nil log);
  learned = fresh.unlearned ∙ sym silent;
}

told_once :
    {S : Type 0} (task : PublicTask) (log : List String) (result : EpisodeResult)
    (m : Remembering S)
    → IsFresh task result
    → teaches task result ≡ true
    → m.updates ≡ log ++ result.task_id ∷ []
    → IsRemembered task log (record result { learning_updated = true }) m
unfolding accepted
told_once task log result m fresh teaching same = record {
  told =
      same
      ∙ ap (λ id. log ++ id ∷ []) fresh.identity
      ∙ sym (ap (λ b. log ++ (if b then task.task_id ∷ [] else [])) teaching);
  learned = sym teaching;
}

module _ (platform : Platform) (arithmetic : Arithmetic) (verifier : ProofVerifier)
    {S : Type 0} where
  learn-IsRemembered :
      (task : PublicTask) (log : List String) (result : EpisodeResult)
      → IsFresh task result
      → Triple
          (Holds {S = S} log)
          (learn (some memory_sink) result)
          (λ ended m. IsRemembered task log ended m)
  unfolding learn memory_update accepted
  learn-IsRemembered task log result fresh =
      Triple-if (result.admission.admitted && result.split == "train")
        (λ e.
          Triple-bind (memory_update result) _ told
            λ done. Triple-pure _ λ m same. told_once task log result m fresh (own_split ∙ e) same)
        (λ e.
          Triple-pure result λ m same. nothing_told task log result m fresh (own_split ∙ e) same)
    where
      own_split : teaches task result ≡ (result.admission.admitted && result.split == "train")
      own_split = ap (λ split. result.admission.admitted && split == "train") (sym fresh.split)

      told :
          Triple
            (Holds {S = S} log)
            (memory_update result)
            (λ done m. m.updates ≡ log ++ result.task_id ∷ [])
      told = record { run = λ m same done e. ap (λ ids. ids ++ result.task_id ∷ []) same }

  admit-IsFresh :
      (task : PublicTask) (log : List String) (reason : TerminalReason) (r : Run) (semantic : Bool)
      → Triple
          (Holds {S = S} log)
          (admit platform arithmetic verifier task reason r semantic)
          (λ result m. Holds log m × IsFresh task result)
  unfolding admit provisional
  admit-IsFresh task log reason r semantic =
      Triple-bind (lift _) _ (Triple-lift _ λ proof m e same. same) λ proof.
        Triple-pure _ λ m same. (same, record { identity = refl; split = refl; unlearned = refl })

  module _ (host : HostGateway S) (policy : Policy S) (generator : Option (Generator S))
      (task : PublicTask) (log : List String) where
    after_admission :
        (result : EpisodeResult)
        → Triple
            (λ m. Holds {S = S} log m × IsFresh task result)
            (learn (some memory_sink) result)
            (λ ended m. IsRemembered task log ended m)
    after_admission result = record {
      run =
          λ m (same, fresh) ended e. (learn-IsRemembered task log result fresh).run m same ended e;
    }

    finish_as-IsRemembered :
        (id : String) (r : Run) (reason : Option TerminalReason)
        → Triple
            (Holds log)
            (finish_as platform arithmetic verifier
              (other_host host)
              id
              task
              (some memory_sink)
              r
              reason)
            (λ result m. IsRemembered task log result m)
    unfolding finish_as
    finish_as-IsRemembered id r none = Triple-lift (raise (crash "AssertionError")) λ a m e h. cc
    finish_as-IsRemembered id r (some reason) =
        let keeps = others_keep host policy generator log in
        let asked = semantic_valid (other_host host) id reason r in
        Triple-bind asked _
          (Triple-keep asked (
            semantic_valid-Keeps platform arithmetic (Holds log) (other_host host)
              (other_policy policy) (other_generator generator) none keeps id reason r))
          λ semantic.
            Triple-bind (admit platform arithmetic verifier task reason r semantic) _
              (admit-IsFresh task log reason r semantic) λ result. after_admission result

    run_session-IsRemembered :
        (start : HostSessionStart)
        → Triple
            (Holds log)
            (run_session platform arithmetic verifier
              (other_host host)
              task
              (other_policy policy)
              (other_generator generator)
              (some memory_sink)
              start)
            (λ result m. IsRemembered task log result m)
    unfolding run_session
    run_session-IsRemembered start =
        Triple-bind (lift (agent_view task)) _ (Triple-lift _ λ view m e same. same) λ view.
          Triple-bind
            (lift (
              require (arithmetic.equal (view_to_dict start.agent_task) (view_to_dict view)) (
                crash "host returned an agent task surface inconsistent with the host descriptor")))
            _ (Triple-lift _ λ done m e same. same)
            λ checked.
              Triple-bind (lift (read_budget arithmetic task.budget)) _
                (Triple-lift _ λ budget m e same. same)
                λ budget.
                  let first =
                    begin platform arithmetic start.agent_task task budget start.observations in
                  let fuel = suc (rounds budget.max_steps) in
                  let looped =
                    loop platform arithmetic (other_host host) start.session_id start.agent_task
                      budget fuel (other_policy policy) (other_generator generator) first in
                  Triple-bind looped _
                    (Triple-keep looped (
                      loop-Keeps platform arithmetic (Holds log) (other_host host)
                        (other_policy policy) (other_generator generator) none
                        (others_keep host policy generator log) start.session_id start.agent_task
                        budget fuel first))
                    λ r. finish_as-IsRemembered start.session_id r r.terminal_reason

    finally-IsRemembered :
        (body : Exec (Remembering S) EpisodeResult) (id : String)
        → Triple (Holds log) body (λ result m. IsRemembered task log result m)
        → Triple
            (Holds log)
            (finally body ((other_host host).close id))
            (λ result m. IsRemembered task log result m)
    unfolding finally other_host on_other
    finally-IsRemembered body id kept = record {
      run = λ m same result e.
          let inner =
            kept.run m same result
              (close_result-ok (body m).0 ((other_host host).close id (body m).1).0 result e) in
          record { told = inner.told; learned = inner.learned };
    }

    start-Keeps : Keeps (Holds log) ((other_host host).start task)
    unfolding other_host
    start-Keeps = on_other-Keeps (host.start task) log

    -- What a run leaves in a `MemoryLearningSink`, where the host, the policy and the generator act
    -- on a state beside it: a run that returns has told the sink its task's identifier, once, if its
    -- result is accepted and the task is for training, and else nothing; and the result says in
    -- `learning_updated` whether it did.
    pub run-IsRemembered :
        (other : S) (result : EpisodeResult)
        → (run platform arithmetic verifier
            (other_host host)
            task
            (other_policy policy)
            (other_generator generator)
            (some memory_sink)
            (record { updates = log; other = other })).0
          ≡ ok result
        → IsRemembered task log result
            (run platform arithmetic verifier
              (other_host host)
              task
              (other_policy policy)
              (other_generator generator)
              (some memory_sink)
              (record { updates = log; other = other })).1
    unfolding run
    run-IsRemembered other result e =
        (Triple-bind ((other_host host).start task)
            (λ start.
              finally
                (run_session platform arithmetic verifier (other_host host) task
                  (other_policy policy) (other_generator generator) (some memory_sink) start)
                ((other_host host).close start.session_id))
            (Triple-keep ((other_host host).start task) start-Keeps)
            λ start. finally-IsRemembered _ start.session_id (run_session-IsRemembered start)).run
          (record { updates = log; other = other }) refl result e
