-- ===== src/Gym/Closing.antt =====
-- `ReferenceGym.run` on a `LocalReferenceHost` closes the session that it starts.
use artifact_proof_lab.Base.{
  ℕ, String, ◌≡◌, refl, ap, ◌∙◌, subst, Option, none, some, List, [], ◌∷◌, ◌++◌, some-eq,
}
use artifact_proof_lab.Base.Outcome.{ok, raise-ne-ok}
use artifact_proof_lab.Base.Exec.{
  Exec, lift, Keeps, Triple, Triple-bind, Triple-pure, Triple-lift, Triple-keep, proceed-ok,
}
use artifact_proof_lab.Json.{Json, Number}
use artifact_proof_lab.Platform.{Platform}
use artifact_proof_lab.Gym.Core.{
  PublicTask, AgentTaskView, Observation, EpisodeResult, agent_view, Arithmetic,
}
use artifact_proof_lab.Gym.Gateway.{
  Environment, HostSessionStart, Policy, Generator, LearningSink, ProofVerifier,
}
use artifact_proof_lab.Gym.LocalHost.{
  HostSession, Sessions, LocalReferenceHost, find, pop, on_world, close, count, file_found,
  file_session, session_id, start, local_host,
}
use artifact_proof_lab.Gym.Finish.{finally, run_session, run}
use artifact_proof_lab.Gym.Keeping.{Respects, run_session-Keeps}
use artifact_proof_lab.Gym.Sessions.{
  find-snoc, HasSessions, on_world-Keeps, step-Keeps, semantic_verdict-Keeps, close-sessions,
  world_policy, world_generator, world_sink,
}

-- One session more than `ss`, under an identifier that was free.
abbrev Filed : {S : Type 0} → Sessions S → String → LocalReferenceHost S → Type 0
Filed {S} ss id h =
    (session : HostSession S) × (h.sessions ≡ ss ++ (id, session) ∷ []) × (find id ss ≡ none)

finally-sessions :
    {S A B : Type 0} (body : Exec (LocalReferenceHost S) A)
    (closing : Exec (LocalReferenceHost S) B) (h : LocalReferenceHost S)
    → (finally body closing h).1.sessions ≡ (closing (body h).1).1.sessions
unfolding finally
finally-sessions body closing h = refl

module _ {S : Type 0} where
  file_found-Filed :
      (id : String) (session : HostSession S) (ss : Sessions S) (found : Option (HostSession S))
      (h : LocalReferenceHost S)
      → HasSessions ss h
      → find id h.sessions ≡ found
      → (file_found id session found h).0 ≡ ok tt
      → Filed ss id (file_found id session found h).1
  unfolding HasSessions
  file_found-Filed id session ss none h same free filed = (
    session,
    ap (λ entries. entries ++ (id, session) ∷ []) same,
    subst (λ entries. find id entries ≡ none) same free,
  )
  file_found-Filed id session ss (some other) h same taken filed = absurd (raise-ne-ok filed)

  file_session-Filed :
      (id : String) (session : HostSession S) (ss : Sessions S)
      → Triple (HasSessions ss) (file_session id session) (λ _ h. Filed ss id h)
  unfolding file_session
  file_session-Filed id session ss = record {
    run =
        λ h same done filed. file_found-Filed id session ss (find id h.sessions) h same refl filed;
  }

  world-Filed :
      {A : Type 0} (method : Exec S A) (id : String) (ss : Sessions S)
      → Triple (Filed ss id) (on_world method) (λ a h. Filed ss id h)
  unfolding on_world
  world-Filed method id ss = record { run = λ h filed a eq. filed }

  world_generator-Keeps :
      (generator : Option (Generator S)) (ss : Sessions S) (g : Generator (LocalReferenceHost S))
      → world_generator generator ≡ some g
      → (view : AgentTaskView) (os : List Observation) (attempt : ℕ)
      → Keeps (HasSessions ss) (g.generate view os attempt)
  unfolding world_generator
  world_generator-Keeps none ss g e = cc
  world_generator-Keeps (some own) ss g e = λ view os attempt.
      subst (λ h. Keeps (HasSessions ss) (h.generate view os attempt)) (some-eq e)
        (on_world-Keeps (own.generate view os attempt) ss)

  world_sink-Keeps :
      (sink : Option (LearningSink S)) (ss : Sessions S) (to : LearningSink (LocalReferenceHost S))
      → world_sink sink ≡ some to
      → (result : EpisodeResult) → Keeps (HasSessions ss) (to.update result)
  unfolding world_sink
  world_sink-Keeps none ss to e = cc
  world_sink-Keeps (some own) ss to e = λ result.
      subst (λ h. Keeps (HasSessions ss) (h.update result)) (some-eq e)
        (on_world-Keeps (own.update result) ss)

module _ (platform : Platform) (text_of : Option (Json Number) → String) {S : Type 0}
    (environment_factory : PublicTask → Exec S (Environment S)) where
  start-Filed :
      (task : PublicTask) (ss : Sessions S)
      → Triple
          (HasSessions ss)
          (start platform text_of environment_factory task)
          (λ started h. Filed ss started.session_id h)
  unfolding start HasSessions
  start-Filed task ss =
      Triple-bind count _ (record { run = λ h same n eq. same })
        λ n.
          Triple-bind (on_world (environment_factory task)) _
            (Triple-keep (on_world (environment_factory task))
              (on_world-Keeps (environment_factory task) ss))
            λ environment.
              let id = session_id platform text_of environment_factory task n in
              let session : HostSession S = record { task = task; environment = environment } in
              Triple-bind (file_session id session) _ (file_session-Filed id session ss) λ done.
                Triple-bind (lift (agent_view task)) _
                  (Triple-lift (agent_view task) λ view h eq filed. filed)
                  λ view.
                    Triple-bind (on_world environment.reset) _ (world-Filed environment.reset id ss)
                      λ observations.
                        Triple-pure
                          (record {
                            session_id = id;
                            agent_task = view;
                            observations = observations;
                          })
                          λ h filed. filed

  world_parties :
      (policy : Policy S) (generator : Option (Generator S)) (sink : Option (LearningSink S))
      (ss : Sessions S)
      → Respects
          (HasSessions ss)
          (local_host platform text_of environment_factory)
          (world_policy policy)
          (world_generator generator)
          (world_sink sink)
  unfolding world_policy
  world_parties policy generator sink ss = record {
    steps = λ id action candidate. step-Keeps id action candidate ss;
    verdicts = λ id. semantic_verdict-Keeps id ss;
    decides = λ view os trajectory. on_world-Keeps (policy.decide view os trajectory) ss;
    generates = λ g e. world_generator-Keeps generator ss g e;
    updates = λ to e. world_sink-Keeps sink ss to e;
  }

  -- A run on this host whose start has returned leaves the table of open sessions as it found it,
  -- whether the run returns or raises, for any policy, generator and sink that act on the state
  -- behind the host, any environments, and any proof verifier.
  pub run-closes :
      (arithmetic : Arithmetic) (verifier : ProofVerifier) (task : PublicTask) (policy : Policy S)
      (generator : Option (Generator S)) (sink : Option (LearningSink S)) (h : LocalReferenceHost S)
      (started : HostSessionStart)
      → (start platform text_of environment_factory task h).0 ≡ ok started
      → (run platform arithmetic verifier
          (local_host platform text_of environment_factory)
          task
          (world_policy policy)
          (world_generator generator)
          (world_sink sink)
          h).1.sessions
        ≡ h.sessions
  unfolding run HasSessions
  run-closes arithmetic verifier task policy generator sink h started e =
      let host = local_host platform text_of environment_factory in
      let body =
        run_session platform arithmetic verifier host task (world_policy policy)
          (world_generator generator) (world_sink sink) in
      let opened = (start platform text_of environment_factory task h).1 in
      let (session, filed, free) = (start-Filed task h.sessions).run h refl started e in
      let kept : HasSessions (h.sessions ++ (started.session_id, session) ∷ [])
          (body started opened).1 =
        (run_session-Keeps platform arithmetic _ host (world_policy policy)
            (world_generator generator) (world_sink sink)
            (world_parties policy generator sink (h.sessions ++ (started.session_id, session) ∷ []))
            verifier task started).after
          opened filed in
      ap (λ ended. ended.1.sessions)
        (proceed-ok (λ st. finally (body st) (close st.session_id))
          (start platform text_of environment_factory task h) started e)
      ∙ finally-sessions (body started) (close started.session_id) opened
      ∙ close-sessions started.session_id (body started opened).1
      ∙ ap (λ ss. pop started.session_id ss) kept
      ∙ find-snoc started.session_id session h.sessions free
