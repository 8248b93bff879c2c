-- ===== src/Gym/Sessions.antt =====
-- The sessions of `LocalReferenceHost`: a table from identifiers to open sessions.
use artifact_proof_lab.Base.{
  String, ◌≡◌, refl, ap, sym, ◌∙◌, subst, false, inl, inr, Option, none, some, List, [], ◌∷◌, ◌++◌,
  map, Holds, Distinct, ◌==◌, eq_iff, eq_refl, if◌then◌else◌, Bool-cases,
}
use artifact_proof_lab.Base.Outcome.{raise, action_rejected}
use artifact_proof_lab.Base.Exec.{Exec, Keeps, Keeps-lift, Keeps-bind, Keeps-if}
use artifact_proof_lab.Gym.Gateway.{Policy, Generator, LearningSink}
use artifact_proof_lab.Gym.LocalHost.{
  HostSession, Sessions, LocalReferenceHost, action_allowed, find, pop, on_world, session_of, step,
  semantic_verdict, close_environment, close_found, close,
}

module _ {S : Type 0} where
  abbrev pub ids : Sessions S → List String
  ids sessions = map (λ entry. entry.0) sessions

  -- No identifier is taken twice.
  abbrev pub IsTable : LocalReferenceHost S → Type 0
  IsTable h = Distinct (ids h.sessions)

  pub find-snoc :
      (id : String) (session : HostSession S) (ss : Sessions S)
      → find id ss ≡ none
      → pop id (ss ++ (id, session) ∷ []) ≡ ss
  unfolding find pop
  find-snoc id session [] absent = rw (eq_refl id) refl
  find-snoc id session ((j, other) ∷ ss) absent = elim (Bool-cases (j == id)) [
    | inl same ↦ let bad = rw same at absent in cc
    | inr e ↦ rw e (ap (λ rest. (j, other) ∷ rest) (find-snoc id session ss (rw e at absent)))
  ]

  find-absent : (id : String) (ss : Sessions S) → (¬ Holds id (ids ss)) → find id ss ≡ none
  unfolding find
  find-absent id [] absent = refl
  find-absent id ((j, other) ∷ ss) absent = elim (Bool-cases (j == id)) [
    | inl same ↦ absurd (absent (inl ((eq_iff j id).0 same)))
    | inr e ↦ rw e (find-absent id ss (λ held. absent (inr held)))
  ]

  -- The table after a session was taken out.
  find-pop :
      (id j : String) (ss : Sessions S)
      → Distinct (ids ss)
      → find j (pop id ss) ≡ (if id == j then none else find j ss)
  unfolding find pop
  find-pop id j [] distinct = elim (Bool-cases (id == j)) [ inl e ↦ rw e refl | inr e ↦ rw e refl ]
  find-pop id j ((k, other) ∷ ss) distinct = elim (Bool-cases (k == id)) [
    | inl e ↦
        let same = (eq_iff k id).0 e in
        rw e (elim (Bool-cases (id == j)) [
          | inl f ↦ rw f (
              find-absent j ss
                (subst (λ i. ¬ Holds i (ids ss)) (same ∙ (eq_iff id j).0 f) distinct.0))
          | inr f ↦ let other_key : k == j ≡ false = rw same f in rw (f, other_key) refl
        ])
    | inr e ↦ rw e (elim (Bool-cases (k == j)) [
      | inl f ↦
          let apart : id == j ≡ false = elim (Bool-cases (id == j)) [
            | inl g ↦ cc ((eq_iff k id).1 ((eq_iff k j).0 f ∙ sym ((eq_iff id j).0 g)))
            | inr g ↦ g
          ] in
          rw (f, apart) refl
      | inr f ↦ rw f (find-pop id j ss distinct.1)
    ])
  ]

  pop-absent : (id : String) (ss : Sessions S) → find id ss ≡ none → pop id ss ≡ ss
  unfolding find pop
  pop-absent id [] absent = refl
  pop-absent id ((j, other) ∷ ss) absent = elim (Bool-cases (j == id)) [
    | inl same ↦ let bad = rw same at absent in cc
    | inr e ↦ rw e (ap (λ rest. (j, other) ∷ rest) (pop-absent id ss (rw e at absent)))
  ]

  Holds-pop : (id a : String) (ss : Sessions S) → Holds a (ids (pop id ss)) → Holds a (ids ss)
  unfolding pop
  Holds-pop id a [] held = held
  Holds-pop id a ((k, other) ∷ ss) held = elim (Bool-cases (k == id)) [
    | inl e ↦ inr (rw e at held)
    | inr e ↦
        let now = rw e at held in
        elim now [ inl same ↦ inl same | inr later ↦ inr (Holds-pop id a ss later) ]
  ]

  pop-Distinct : (id : String) (ss : Sessions S) → Distinct (ids ss) → Distinct (ids (pop id ss))
  unfolding pop
  pop-Distinct id [] distinct = tt
  pop-Distinct id ((k, other) ∷ ss) distinct = elim (Bool-cases (k == id)) [
    | inl e ↦ rw e distinct.1
    | inr e ↦ rw e (λ held. distinct.0 (Holds-pop id k ss held), pop-Distinct id ss distinct.1)
  ]

  -- A method behind the host leaves its table alone.
  unfoldable pub HasSessions : Sessions S → LocalReferenceHost S → Type 0
  HasSessions ss h = h.sessions ≡ ss

  pub on_world-Keeps :
      {A : Type 0} (method : Exec S A) (ss : Sessions S) → Keeps (HasSessions ss) (on_world method)
  unfolding on_world HasSessions
  on_world-Keeps method ss = record { after = λ h same. same }

  session_of-Keeps : (id : String) (ss : Sessions S) → Keeps (HasSessions ss) (session_of id)
  unfolding session_of
  session_of-Keeps id ss = record { after = λ h same. same }

  pub step-Keeps :
      (id action : String) (candidate : Option String) (ss : Sessions S)
      → Keeps (HasSessions ss) (step id action candidate)
  unfolding step
  step-Keeps id action candidate ss =
      Keeps-bind (session_of id) _ (session_of-Keeps id ss) λ session.
        Keeps-if (action_allowed session.task action) _ _
          (on_world-Keeps (session.environment.step action candidate) ss)
          (Keeps-lift (raise (action_rejected "action is outside host contract")))

  pub semantic_verdict-Keeps :
      (id : String) (ss : Sessions S) → Keeps (HasSessions ss) (semantic_verdict id)
  unfolding semantic_verdict
  semantic_verdict-Keeps id ss =
      Keeps-bind (session_of id) _ (session_of-Keeps id ss)
        λ session. on_world-Keeps session.environment.semantic_verdict ss

  close_environment-sessions :
      (method : Option (Exec S (Unit {0}))) (h : LocalReferenceHost S)
      → (close_environment method h).1.sessions ≡ h.sessions
  unfolding on_world close_environment
  close_environment-sessions none h = refl
  close_environment-sessions (some method) h = refl

  close_found-sessions :
      (id : String) (found : Option (HostSession S)) (h : LocalReferenceHost S)
      → find id h.sessions ≡ found
      → (close_found id found h).1.sessions ≡ pop id h.sessions
  unfolding close_found
  close_found-sessions id none h e = sym (pop-absent id h.sessions e)
  close_found-sessions id (some session) h e =
      close_environment-sessions session.environment.close
        (record h { sessions = pop id h.sessions })

  pub close-sessions :
      (id : String) (h : LocalReferenceHost S) → (close id h).1.sessions ≡ pop id h.sessions
  unfolding close
  close-sessions id h = close_found-sessions id (find id h.sessions) h refl

  -- Closing a session, whether its environment's `close` returns or raises, leaves a table with
  -- distinct identifiers and without that session, and every other session as it was.
  pub close-find :
      (id : String) (h : LocalReferenceHost S)
      → IsTable h
      → IsTable (close id h).1
        × ((j : String)
            → find j (close id h).1.sessions ≡ (if id == j then none else find j h.sessions))
  close-find id h distinct =
      rw (close-sessions id h)
        (pop-Distinct id h.sessions distinct, λ j. find-pop id j h.sessions distinct)

  -- The parties of a run that act on the state behind the host.
  unfoldable pub world_policy : Policy S → Policy (LocalReferenceHost S)
  unfolding on_world
  world_policy p = record { decide = λ view os trajectory. on_world (p.decide view os trajectory) }

  unfoldable pub world_generator : Option (Generator S) → Option (Generator (LocalReferenceHost S))
  unfolding on_world
  world_generator none = none
  world_generator (some g) =
      some (record { generate = λ view os attempt. on_world (g.generate view os attempt) })

  unfoldable pub world_sink : Option (LearningSink S) → Option (LearningSink (LocalReferenceHost S))
  unfolding on_world
  world_sink none = none
  world_sink (some to) = some (record { update = λ result. on_world (to.update result) })
