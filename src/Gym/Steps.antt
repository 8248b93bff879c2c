-- ===== src/Gym/Steps.antt =====
-- What the verifier does with each entry that the ledger's methods write.
use artifact_proof_lab.Base.{
  ℕ, suc, String, ◌≡◌, refl, ap, Bool, true, false, Option, none, some, List, [], ◌∷◌, ◌++◌, eqb,
  eq_refl, arith,
}
use artifact_proof_lab.Base.Outcome.{ok, ◌>>=◌}
use artifact_proof_lab.Json.{Json, Number, Fields, get, items_of, elements}
use artifact_proof_lab.Platform.{Platform}
use artifact_proof_lab.Gym.Canonical.{observation_frontier_sha256}
use artifact_proof_lab.Gym.Ledger.{
  start_payload, observation_payload, decision_payload, action_payload, terminal_payload,
}
use artifact_proof_lab.Gym.Verify.{
  Chain, as_object, as_list, pending_hash, on_start, on_observations, on_decision, on_action,
  on_terminal, on_kind,
}

eqb-suc : (n : ℕ) → eqb (suc n) 0 ≡ false
eqb-suc n = ground arith

pub elements-items_of : (vs : List (Json Number)) → elements (items_of vs) ≡ vs
unfolding elements
elements-items_of [] = refl
elements-items_of (v ∷ vs) = ap (λ ws. v ∷ ws) (elements-items_of vs)

abbrev pub chain : String → List (Json Number) → Option String → Chain
chain previous frontier pending = record {
  previous_hash = previous;
  observed_frontier = frontier;
  pending_decision_hash = pending;
  terminal_seen = false;
}

module _ (platform : Platform) where
  pub started-step :
      (view : Json Number) (commitment hash previous : String)
      → on_kind platform 0
          (record {
            kind = "EPISODE_START";
            payload = start_payload platform view commitment;
            entry_hash = hash;
          })
          (chain previous [] none)
        ≡ ok (chain previous [] none)
  unfolding on_kind on_start get ◌>>=◌
  started-step view commitment hash previous = refl

  pub observed-step :
      (n : ℕ) (observations : List (Json Number)) (phase hash previous : String)
      (f : List (Json Number))
      → on_kind platform
          (suc n)
          (record {
            kind = "OBSERVATION_BATCH";
            payload = observation_payload platform observations phase;
            entry_hash = hash;
          })
          (chain previous f none)
        ≡ ok (chain previous (f ++ observations) none)
  unfolding on_kind on_observations get as_list ◌>>=◌
  observed-step n observations phase hash previous f =
      rw
        (
          eqb-suc n,
          elements-items_of observations,
          eq_refl (observation_frontier_sha256 platform observations),
        )
        refl

  pub decided-step :
      (n : ℕ) (decision : Fields Number) (hash previous : String) (f : List (Json Number))
      → on_kind platform
          (suc n)
          (record {
            kind = "DECISION";
            payload = decision_payload platform decision f;
            entry_hash = hash;
          })
          (chain previous f none)
        ≡ ok (chain previous f (some hash))
  unfolding on_kind on_decision get as_object ◌>>=◌
  decided-step n decision hash previous f =
      rw (eqb-suc n, eq_refl (observation_frontier_sha256 platform f)) refl

  pub acted-step :
      (n : ℕ) (pending action : String) (observations : List (Json Number)) (done : Bool)
      (accepted : Option Bool) (candidate : Option String) (hash previous : String)
      (f : List (Json Number))
      → on_kind platform
          (suc n)
          (record {
            kind = "ACTION_RESULT";
            payload = action_payload platform pending action observations done accepted candidate;
            entry_hash = hash;
          })
          (chain previous f (some pending))
        ≡ ok (chain previous (f ++ observations) none)
  unfolding on_kind on_action pending_hash get as_list ◌>>=◌
  acted-step n pending action observations done accepted candidate hash previous f =
      rw
        (
          eqb-suc n,
          eq_refl pending,
          elements-items_of observations,
          eq_refl (observation_frontier_sha256 platform observations),
        )
        refl

  pub terminal-step :
      (n : ℕ) (reason : String) (semantic provenance exhausted : Bool) (cause : Option String)
      (hash previous : String) (f : List (Json Number))
      → on_kind platform
          (suc n)
          (record {
            kind = "TERMINAL";
            payload = terminal_payload platform reason semantic provenance exhausted f cause;
            entry_hash = hash;
          })
          (chain previous f cause)
        ≡ ok (record (chain previous f none) { terminal_seen = true })
  unfolding on_kind on_terminal get ◌>>=◌
  terminal-step n reason semantic provenance exhausted none hash previous f =
      rw (eqb-suc n, eq_refl (observation_frontier_sha256 platform f)) refl
  terminal-step n reason semantic provenance exhausted (some pending) hash previous f =
      rw (eqb-suc n, eq_refl (observation_frontier_sha256 platform f), eq_refl pending) refl
