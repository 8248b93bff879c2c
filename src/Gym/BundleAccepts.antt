-- ===== src/Gym/BundleAccepts.antt =====
-- What `ProofBundleVerifier` of gym/core.py accepts.
use artifact_proof_lab.Base.{
  String, ◌≡◌, refl, ap, Bool, true, false, Option, none, some, List, [], ◌∷◌, ◌++◌, eq_iff,
}
use artifact_proof_lab.Base.Outcome.{Exception, Result, ok, raise, require, ◌>>=◌, >>=-eq-ok, >>-ok}
use artifact_proof_lab.Json.{Json, Number, Fields, null, bool, num, str, arr, obj, get}
use artifact_proof_lab.Platform.{Platform, Bytes}
use artifact_proof_lab.Gym.Canonical.{
  sha256_json, observation_frontier_sha256, canonical_json_bytes,
}
use artifact_proof_lab.Gym.Verify.{is_text, verify_ledger_document}
use artifact_proof_lab.Gym.Core.{
  Observation, PublicTask, AgentTaskView, view_to_dict, agent_view, Arithmetic,
}
use artifact_proof_lab.Gym.Run.{dicts, host_task_commitment}
use artifact_proof_lab.Gym.Finish.{is_valid}
use artifact_proof_lab.Gym.Gateway.{Proof}
use artifact_proof_lab.Gym.Admissible.{valid-ok}
use artifact_proof_lab.Gym.Bundle.{
  is_bool, read_payloads, check_receipts, bundle_files, bundle_manifest, prove, after_receipts,
  after_payloads, verify_bundle,
}

-- What the payloads of an accepted ledger say.
pub record Receipts (platform : Platform) (view : Json Number) (commitment : String)
    (frontier : List (Json Number)) (semantic provenance : Bool) (start terminal : Fields Number)
    : Type 0 where
  pub shown_view : get "agent_task_view_sha256" start ≡ some (str (sha256_json platform view))
  pub host_commitment : get "host_task_commitment" start ≡ some (str commitment)
  pub final_frontier :
      get "observation_frontier_sha256" terminal
      ≡ some (str (observation_frontier_sha256 platform frontier))
  pub semantic_flag : is_bool platform (get "semantic_valid" terminal) semantic ≡ true
  pub provenance_flag : is_bool platform (get "provenance_valid" terminal) provenance ≡ true

answer-passed :
    (answer : Result (Bool × Json Number)) (report : Option (Json Number))
    → ◌>>=◌ {W = Proof} answer (λ (passed, printed). ok (passed, some printed)) ≡ ok (true, report)
    → (printed : Json Number) × (answer ≡ ok (true, printed))
unfolding ◌>>=◌
answer-passed (raise e) report h = cc
answer-passed (ok (true, printed)) report h = (printed, refl)
answer-passed (ok (false, printed)) report h = cc

is_text-eq : (v : Option (Json Number)) (s : String) → is_text v s ≡ true → v ≡ some (str s)
is_text-eq (some (str t)) s h = ap (λ u. some (str u)) ((eq_iff t s).0 h)
is_text-eq (some (arr vs)) s h = cc
is_text-eq (some (obj fs)) s h = cc
is_text-eq (some (num n)) s h = cc
is_text-eq (some (bool b)) s h = cc
is_text-eq (some null) s h = cc
is_text-eq none s h = cc

require-last : (b : Bool) (e : Exception) → require b e ≡ ok tt → b ≡ true
unfolding require
require-last true e h = refl
require-last false e h = cc

check_receipts-Receipts :
    (platform : Platform) (view : Json Number) (commitment : String) (frontier : List (Json Number))
    (semantic provenance : Bool) (start terminal : Fields Number)
    → check_receipts platform
        (sha256_json platform view)
        commitment
        (observation_frontier_sha256 platform frontier)
        semantic
        (some provenance)
        (start, terminal)
      ≡ ok tt
    → Receipts platform view commitment frontier semantic provenance start terminal
unfolding check_receipts
check_receipts-Receipts platform view commitment frontier semantic provenance start terminal h =
    let (a, h1) =
      (>>-ok (is_text (get "agent_task_view_sha256" start) (sha256_json platform view)) _ _ tt).0
        h in
    let (b, h2) = (>>-ok (is_text (get "host_task_commitment" start) commitment) _ _ tt).0 h1 in
    let (c, h3) =
      (>>-ok
          (is_text (get "observation_frontier_sha256" terminal)
            (observation_frontier_sha256 platform frontier))
          _ _ tt).0
        h2 in
    let (d, h4) = (>>-ok (is_bool platform (get "semantic_valid" terminal) semantic) _ _ tt).0 h3 in
    record {
      shown_view = is_text-eq (get "agent_task_view_sha256" start) _ a;
      host_commitment = is_text-eq (get "host_task_commitment" start) _ b;
      final_frontier = is_text-eq (get "observation_frontier_sha256" terminal) _ c;
      semantic_flag = d;
      provenance_flag = require-last _ _ h4;
    }

read_payloads-verified :
    (platform : Platform) (document : Fields Number) (payloads : Fields Number × Fields Number)
    → read_payloads platform document ≡ ok payloads
    → verify_ledger_document platform document ≡ ok tt
unfolding read_payloads
read_payloads-verified platform document payloads h =
    let (valid, rest) =
      (>>-ok (is_valid (verify_ledger_document platform document)) _ _ payloads).0 h in
    valid-ok (verify_ledger_document platform document) valid

module _ (platform : Platform) (arithmetic : Arithmetic)
    (verify_artifact : List (String × Bytes) → Result (Bool × Json Number)) where
  after_receipts-accepted :
      (checked : Result (Unit {0})) (proof : Result Proof) (report : Option (Json Number))
      → after_receipts platform arithmetic verify_artifact checked proof ≡ ok (true, report)
      → (checked ≡ ok tt) × (proof ≡ ok (true, report))
  after_receipts-accepted (ok _) proof report h = (refl, h)
  after_receipts-accepted (raise e) proof report h = cc

  -- The files of a bundle with the manifest on them.
  abbrev pub directory : List (String × Bytes) → List (String × Bytes)
  directory files =
      files
      ++ ("ARTIFACT_PROOF.json", canonical_json_bytes (bundle_manifest platform arithmetic files))
        ∷ []

  prove-passed :
      (view : Json Number) (task : PublicTask) (os : List Observation) (semantic provenance : Bool)
      (document : Fields Number) (report : Option (Json Number))
      → prove platform arithmetic verify_artifact task view os semantic
          (some provenance)
          (some document)
        ≡ ok (true, report)
      → (printed : Json Number) × (verify_artifact (
            directory (
              bundle_files platform arithmetic task view os semantic
                (some provenance)
                (some document)))
          ≡ ok (true, printed))
  unfolding prove
  prove-passed view task os semantic provenance document report h =
      let files =
        bundle_files platform arithmetic task view os semantic (some provenance) (some document) in
      answer-passed (verify_artifact (directory files)) report h

  after_payloads-accepted :
      (task : PublicTask) (os : List Observation) (semantic provenance : Bool)
      (document : Fields Number) (read : Result (Fields Number × Fields Number))
      (report : Option (Json Number))
      → after_payloads platform arithmetic verify_artifact task os semantic
          (some provenance)
          document
          read
        ≡ ok (true, report)
      → (view : AgentTaskView) × (start : Fields Number) × (terminal : Fields Number) × (agent_view
            task
          ≡ ok view)
        × (read ≡ ok (start, terminal))
        × Receipts platform
            (view_to_dict view)
            (host_task_commitment platform arithmetic task)
            (dicts os)
            semantic
            provenance
            start
            terminal
        × (prove platform arithmetic verify_artifact task
              (view_to_dict view)
              os
              semantic
              (some provenance)
              (some document)
            ≡ ok (true, report))
  unfolding after_payloads
  after_payloads-accepted task os semantic provenance document (raise e) report h = cc
  after_payloads-accepted task os semantic provenance document (ok (start, terminal)) report h =
      let (view, shown, rest) = >>=-eq-ok (agent_view task) _ h in
      let (checked, proved) = after_receipts-accepted _ _ report rest in
      (
        view,
        start,
        terminal,
        shown,
        refl,
        check_receipts-Receipts platform (view_to_dict view)
            (host_task_commitment platform arithmetic task) (dicts os) semantic provenance start
            terminal checked,
        proved,
      )

  -- What an accepted bundle rests on.
  pub record IsAccepted (task : PublicTask) (os : List Observation) (semantic provenance : Bool)
      (document : Fields Number) : Type 0 where
    pub view : AgentTaskView
    pub start : Fields Number
    pub terminal : Fields Number
    pub shown : agent_view task ≡ ok view
    pub recorded : verify_ledger_document platform document ≡ ok tt
    pub read : read_payloads platform document ≡ ok (start, terminal)
    pub receipts :
        Receipts platform
          (view_to_dict view)
          (host_task_commitment platform arithmetic task)
          (dicts os)
          semantic
          provenance
          start
          terminal
    pub passed :
        (printed : Json Number) × (verify_artifact (
            directory (
              bundle_files platform arithmetic task
                (view_to_dict view)
                os
                semantic
                (some provenance)
                (some document)))
          ≡ ok (true, printed))

  -- A bundle that is accepted with its ledger: the document is accepted by the verifier of documents,
  -- its start receipt commits to the surface and the descriptor of this very task, its terminal
  -- receipt to the observations and the two flags, and `verify_artifact` has passed the directory that
  -- holds the files of the bundle and, last, the manifest with their digests.
  pub verify_bundle-IsAccepted :
      (task : PublicTask) (os : List Observation) (semantic provenance : Bool)
      (document : Fields Number) (report : Option (Json Number))
      → verify_bundle platform arithmetic verify_artifact task os semantic
          (some provenance)
          (some document)
        ≡ ok (true, report)
      → IsAccepted task os semantic provenance document
  unfolding verify_bundle
  verify_bundle-IsAccepted task os semantic provenance document report h =
      let (view, start, terminal, shown, same, receipts, proved) =
        after_payloads-accepted task os semantic provenance document
          (read_payloads platform document) report h in
      record {
        view = view;
        start = start;
        terminal = terminal;
        shown = shown;
        recorded = read_payloads-verified platform document (start, terminal) same;
        read = same;
        receipts = receipts;
        passed =
            prove-passed (view_to_dict view) task os semantic provenance document report proved;
      }
