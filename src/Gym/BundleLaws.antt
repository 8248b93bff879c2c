-- ===== src/Gym/BundleLaws.antt =====
-- `ProofBundleVerifier` of gym/core.py on the ledgers of runs, and what it accepts.
use artifact_proof_lab.Base.{
  String, ◌≡◌, refl, ap, ◌∙◌, Bool, true, false, Option, some, List, [], ◌∷◌, ◌++◌, map, eq_refl,
  some-eq,
}
use artifact_proof_lab.Base.Outcome.{Result, ok, ◌>>=◌}
use artifact_proof_lab.Json.{Json, Number, Fields, bool, get}
use artifact_proof_lab.Platform.{Platform, Bytes}
use artifact_proof_lab.Gym.Canonical.{sha256_json, observation_frontier_sha256}
use artifact_proof_lab.Gym.Ledger.{
  LedgerEntry, to_dict, new_entry, append, record_terminal, start_payload, terminal_payload,
  to_document,
}
use artifact_proof_lab.Gym.Verify.{as_object, verify_ledger_document}
use artifact_proof_lab.Gym.Reading.{>>=-of-ok}
use artifact_proof_lab.Gym.Steps.{elements-items_of}
use artifact_proof_lab.Gym.Core.{
  TerminalReason, reason_value, PublicTask, AgentTaskView, view_to_dict, agent_view, Arithmetic,
}
use artifact_proof_lab.Gym.Budget.{Budget}
use artifact_proof_lab.Gym.Run.{Run, dicts, host_task_commitment}
use artifact_proof_lab.Gym.Finish.{closed_ledger}
use artifact_proof_lab.Gym.Invariant.{IsRun, first_payload, first_payload-append}
use artifact_proof_lab.Gym.Opening.{opening_of}
use artifact_proof_lab.Gym.Admissible.{closed-recorded}
use artifact_proof_lab.Gym.Bundle.{
  is_bool, first_of, last_of, payload_of, entries_of, read_payloads, check_receipts, prove,
  after_receipts, after_payloads, verify_bundle,
}

last_of-snoc : {A : Type 0} (xs : List A) (x : A) → last_of (xs ++ x ∷ []) ≡ some x
unfolding last_of
last_of-snoc [] x = refl
last_of-snoc (y ∷ []) x = refl
last_of-snoc (y ∷ z ∷ xs) x = last_of-snoc (z ∷ xs) x

map-snoc :
    {A B : Type 0} (f : A → B) (xs : List A) (x : A) → map f (xs ++ x ∷ []) ≡ map f xs ++ f x ∷ []
map-snoc f [] x = refl
map-snoc f (y ∷ xs) x = ap (λ ys. f y ∷ ys) (map-snoc f xs x)

payload_of-to_dict :
    (e : LedgerEntry) (reason : String) → payload_of (some (to_dict e)) reason ≡ ok e.payload
unfolding payload_of as_object get to_dict
payload_of-to_dict e reason = refl

first-payload_of :
    (es : List LedgerEntry) (payload : Fields Number) (reason : String)
    → first_payload es ≡ some payload
    → payload_of (first_of (map to_dict es)) reason ≡ ok payload
unfolding first_payload
first-payload_of [] payload reason e = cc
first-payload_of (f ∷ es) payload reason e =
    payload_of-to_dict f reason ∙ ap (λ p. ok p) (some-eq e)

get-entries : (es : List LedgerEntry) → entries_of (get "entries" (to_document es)) ≡ map to_dict es
unfolding entries_of get to_document
get-entries es = elements-items_of (map to_dict es)

last_payload :
    (platform : Platform) (es : List LedgerEntry) (kind : String) (terminal : Fields Number)
    → payload_of
        (last_of (map to_dict (append platform kind terminal es)))
        "trajectory ledger terminal payload missing"
      ≡ ok terminal
unfolding append new_entry
last_payload platform es kind terminal =
    let e = new_entry platform es kind terminal in
    ap (λ ds. payload_of (last_of ds) "trajectory ledger terminal payload missing")
      (map-snoc to_dict es e)
    ∙ ap (λ o. payload_of o "trajectory ledger terminal payload missing")
        (last_of-snoc (map to_dict es) (to_dict e))
    ∙ payload_of-to_dict e "trajectory ledger terminal payload missing"

read_payloads-ok :
    (platform : Platform) (es : List LedgerEntry) (kind : String) (start terminal : Fields Number)
    → first_payload es ≡ some start
    → verify_ledger_document platform (to_document (append platform kind terminal es)) ≡ ok tt
    → read_payloads platform (to_document (append platform kind terminal es)) ≡ ok (start, terminal)
unfolding read_payloads
read_payloads-ok platform es kind start terminal opened verified =
    let full = append platform kind terminal es in
    let last : payload_of (last_of (map to_dict full)) "trajectory ledger terminal payload missing"
        ≡ ok terminal =
      last_payload platform es kind terminal in
    rw (verified, get-entries (append platform kind terminal es))
      (>>=-of-ok (payload_of (first_of (map to_dict full)) _) _ (
          first-payload_of full start _
            (first_payload-append platform kind terminal start es opened))
        ∙ >>=-of-ok (payload_of (last_of (map to_dict full)) _) _ last)

is_bool_refl : (platform : Platform) (b : Bool) → is_bool platform (some (bool b)) b ≡ true
is_bool_refl platform true = refl
is_bool_refl platform false = refl

-- The receipts that a run writes are the ones that are looked for.
check_receipts-ok :
    (platform : Platform) (view : Json Number) (commitment reason : String)
    (semantic provenance exhausted : Bool) (frontier : List (Json Number)) (cause : Option String)
    → check_receipts platform
        (sha256_json platform view)
        commitment
        (observation_frontier_sha256 platform frontier)
        semantic
        (some provenance)
        (
          start_payload platform view commitment,
          terminal_payload platform reason semantic provenance exhausted frontier cause,
        )
      ≡ ok tt
unfolding check_receipts get ◌>>=◌
check_receipts-ok platform view commitment reason semantic provenance exhausted frontier cause =
    rw
      (
        eq_refl (sha256_json platform view),
        eq_refl commitment,
        eq_refl (observation_frontier_sha256 platform frontier),
        is_bool_refl platform semantic,
        is_bool_refl platform provenance,
      )
      refl

module _ (platform : Platform) (arithmetic : Arithmetic)
    (verify_artifact : List (String × Bytes) → Result (Bool × Json Number)) where
  -- The ledger that a run closes, on the surface that the task shows, is never refused: its proof is
  -- the verdict of `verify_artifact` on the bundle.
  pub verify_bundle-closed :
      (budget : Budget) (task : PublicTask) (view : AgentTaskView) (reason : TerminalReason)
      (semantic provenance : Bool) (r : Run)
      → agent_view task ≡ ok view
      → IsRun platform arithmetic budget (opening_of platform arithmetic budget view task) r
      → let document = to_document (closed_ledger platform reason semantic provenance r) in
        verify_bundle platform arithmetic verify_artifact task r.observations semantic
          (some provenance)
          (some document)
        ≡ prove platform arithmetic verify_artifact task
            (view_to_dict view)
            r.observations
            semantic
            (some provenance)
            (some document)
  unfolding verify_bundle after_payloads closed_ledger record_terminal
  verify_bundle-closed budget task view reason semantic provenance r shown at =
      let commitment = host_task_commitment platform arithmetic task in
      let start = start_payload platform (view_to_dict view) commitment in
      let terminal =
        terminal_payload platform (reason_value reason) semantic provenance r.budget_exhausted
          (dicts r.observations) r.terminal_cause in
      let proof =
        prove platform arithmetic verify_artifact task (view_to_dict view) r.observations semantic
          (some provenance) (some (to_document (append platform "TERMINAL" terminal r.ledger))) in
      let recorded =
        closed-recorded platform arithmetic budget (opening_of platform arithmetic budget view task)
          reason semantic provenance r at in
      ap
        (λ payloads.
          after_payloads platform arithmetic verify_artifact task r.observations semantic
            (some provenance) (to_document (append platform "TERMINAL" terminal r.ledger)) payloads)
        (read_payloads-ok platform r.ledger "TERMINAL" start terminal at.opened recorded)
      ∙ >>=-of-ok (agent_view task) _ shown
      ∙ ap (λ checked. after_receipts platform arithmetic verify_artifact checked proof)
          (check_receipts-ok platform (view_to_dict view) commitment (reason_value reason) semantic
            provenance r.budget_exhausted (dicts r.observations) r.terminal_cause)
