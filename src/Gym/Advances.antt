-- ===== src/Gym/Advances.antt =====
-- Each branch of the loop in `verify_ledger_document` keeps the order of the entries.
use artifact_proof_lab.Base.{ℕ, suc, String, ◌≡◌, true, false, List, ◌∷◌, eqb, ◌==◌, eq_iff, arith}
use artifact_proof_lab.Base.Outcome.{
  Ensures, holds, raised, Ensures-require, Ensures-reject, Ensures-bind, Ensures-if,
}
use artifact_proof_lab.Platform.{Platform}
use artifact_proof_lab.Gym.Verify.{
  Link, Chain, on_observations, on_decision, on_action, on_terminal, on_kind,
}
use artifact_proof_lab.Gym.Turns.{
  RestOf, Rest-observed, Rest-decided, Rest-acted, Rest-finished, known, pending_hash-Ensures,
}

not-zero : (n : ℕ) → ¬ (eqb (suc n) 0 ≡ true)
not-zero n h = ground arith

-- What `on_kind` gives after the first entry, for an episode that has not ended.
unfoldable pub Advances : Link → Chain → Chain → Type 0
Advances l c next = (kinds : List String) → RestOf next kinds → RestOf c (l.kind ∷ kinds)

module _ (platform : Platform) where
  on_observations-Advances :
      (l : Link) (c : Chain)
      → c.terminal_seen ≡ false
      → l.kind ≡ "OBSERVATION_BATCH"
      → Ensures (Advances l c) (on_observations platform l c)
  unfolding on_observations Advances
  on_observations-Advances l c open_ kind = Ensures-bind (Ensures-reject _ _) λ _ idle.
      Ensures-bind (known _) λ observations _. Ensures-bind (Ensures-require _ _) λ _ _.
        holds λ kinds h.
          Rest-observed c.pending_decision_hash c.terminal_seen l.kind kinds open_ kind idle h

  on_decision-Advances :
      (l : Link) (c : Chain)
      → c.terminal_seen ≡ false
      → l.kind ≡ "DECISION"
      → Ensures (Advances l c) (on_decision platform l c)
  unfolding on_decision Advances
  on_decision-Advances l c open_ kind = Ensures-bind (Ensures-reject _ _) λ _ idle.
      Ensures-bind (known _) λ decision _. Ensures-bind (Ensures-require _ _) λ _ _.
        holds λ kinds h.
          Rest-decided c.pending_decision_hash c.terminal_seen l.kind l.entry_hash kinds open_ kind
            idle h

  on_action-Advances :
      (l : Link) (c : Chain)
      → c.terminal_seen ≡ false
      → l.kind ≡ "ACTION_RESULT"
      → Ensures (Advances l c) (on_action platform l c)
  unfolding on_action Advances
  on_action-Advances l c open_ kind =
      Ensures-bind (pending_hash-Ensures c.pending_decision_hash) λ hash waiting.
        Ensures-bind (Ensures-require _ _) λ _ _. Ensures-bind (known _) λ observations _.
          Ensures-bind (Ensures-require _ _) λ _ _. holds λ kinds h.
            Rest-acted c.pending_decision_hash c.terminal_seen l.kind hash kinds open_ kind waiting
              h

  on_terminal-Advances :
      (l : Link) (c : Chain)
      → c.terminal_seen ≡ false
      → l.kind ≡ "TERMINAL"
      → Ensures (Advances l c) (on_terminal platform l c)
  unfolding on_terminal Advances
  on_terminal-Advances l c open_ kind = Ensures-bind (Ensures-require _ _) λ _ _.
      Ensures-bind (Ensures-require _ _) λ _ _.
        holds
          λ kinds h. Rest-finished c.pending_decision_hash c.terminal_seen l.kind kinds open_ kind h

  pub on_kind-Advances :
      (index : ℕ) (l : Link) (c : Chain)
      → c.terminal_seen ≡ false
      → Ensures (Advances l c) (on_kind platform (suc index) l c)
  unfolding on_kind
  on_kind-Advances index l c open_ =
      Ensures-if (eqb (suc index) 0) (λ e. absurd (not-zero index e))
        λ _.
          Ensures-if (l.kind == "OBSERVATION_BATCH")
            (λ e. on_observations-Advances l c open_ ((eq_iff l.kind "OBSERVATION_BATCH").0 e))
            λ _.
              Ensures-if (l.kind == "DECISION")
                (λ e. on_decision-Advances l c open_ ((eq_iff l.kind "DECISION").0 e))
                λ _.
                  Ensures-if (l.kind == "ACTION_RESULT")
                    (λ e. on_action-Advances l c open_ ((eq_iff l.kind "ACTION_RESULT").0 e))
                    λ _.
                      Ensures-if (l.kind == "TERMINAL")
                        (λ e. on_terminal-Advances l c open_ ((eq_iff l.kind "TERMINAL").0 e))
                        λ _. raised
