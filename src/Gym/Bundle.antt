-- ===== src/Gym/Bundle.antt =====
-- `ProofBundleVerifier` of gym/core.py. `verify_artifact` on the temporary directory is a parameter
-- of the files that were written there, in that order; a report is the JSON value of its `to_dict`.
use Prim.Native.String.{◌++◌ as append}
use artifact_proof_lab.Base.{
  String, Bool, true, false, Option, none, some, List, [], ◌∷◌, ◌++◌, if◌then◌else◌,
}
use artifact_proof_lab.Base.Outcome.{value_error, Result, ok, raise, require, ◌>>=◌, ◌>>◌}
use artifact_proof_lab.Json.{
  Json, Number, Fields, nil, end, null, bool, str, arr, obj, get, elements, items_of, fields_of,
}
use artifact_proof_lab.Platform.{Platform, Bytes}
use artifact_proof_lab.Gym.Canonical.{
  insert_key, canonical_json_bytes, sha256_json, observation_frontier_sha256,
}
use artifact_proof_lab.Gym.Verify.{is_text, is_number, as_object, verify_ledger_document}
use artifact_proof_lab.Gym.Core.{
  Observation, observation_to_dict, PublicTask, view_to_dict, agent_view, Arithmetic,
}
use artifact_proof_lab.Gym.Gateway.{Proof, ProofVerifier}
use artifact_proof_lab.Gym.Run.{dicts, host_task_commitment}
use artifact_proof_lab.Gym.Finish.{is_valid, reason_of}

-- value == b: is_number reads a bool as a number, as Python does.
abbrev pub is_bool : Platform → Option (Json Number) → Bool → Bool
is_bool platform v b = is_number platform v (if b then 1 else 0)

abbrev refused : String → Proof
refused reason =
    (false, some (obj (fields_of (("status", str "FAIL") ∷ ("reason", str reason) ∷ []))))

abbrev pub first_of : {A : Type 0} → List A → Option A
first_of [] = none
first_of (x ∷ xs) = some x

unfoldable pub last_of : {A : Type 0} → List A → Option A
last_of [] = none
last_of (x ∷ []) = some x
last_of (x ∷ y ∷ xs) = last_of (y ∷ xs)

-- entry.get("payload"), if it is a dictionary: the entries of an accepted ledger are dictionaries.
unfoldable pub payload_of : Option (Json Number) → String → Result (Fields Number)
unfolding as_object get
payload_of (some (obj entry)) reason = as_object (get "payload" entry) reason
payload_of _ reason = raise (value_error reason)

-- The entries, where they are a list.
unfoldable pub entries_of : Option (Json Number) → List (Json Number)
unfolding elements
entries_of (some (arr vs)) = elements vs
entries_of _ = []

-- The flag of the receipt, where the caller gives one.
abbrev pub same_flag : Platform → Option Bool → Option (Json Number) → Bool
same_flag platform none v = true
same_flag platform (some b) v = is_bool platform v b

-- The payloads that the receipts stand in. `return False, ...` is a raise with the reason.
unfoldable pub read_payloads : Platform → Fields Number → Result (Fields Number × Fields Number)
unfolding verify_ledger_document payload_of entries_of get last_of ◌>>=◌
read_payloads platform document =
    let verified = verify_ledger_document platform document in
    let entries = entries_of (get "entries" document) in
    do
      require (is_valid verified)
          (value_error (append "trajectory ledger rejected: " (reason_of "" verified)))
      start_payload ← payload_of (first_of entries) "trajectory ledger start payload missing"
      terminal_payload ← payload_of (last_of entries) "trajectory ledger terminal payload missing"
      ok (start_payload, terminal_payload)

unfoldable pub check_receipts :
    Platform
    → String
    → String
    → String
    → Bool
    → Option Bool
    → Fields Number × Fields Number
    → Result (Unit {0})
unfolding get
check_receipts platform agent_view host_task frontier semantic provenance (start, terminal) = do
  require (is_text (get "agent_task_view_sha256" start) agent_view)
      (value_error "trajectory ledger agent task commitment mismatch")
  require (is_text (get "host_task_commitment" start) host_task)
      (value_error "trajectory ledger host task commitment mismatch")
  require (is_text (get "observation_frontier_sha256" terminal) frontier)
      (value_error "trajectory ledger observation frontier mismatch")
  require (is_bool platform (get "semantic_valid" terminal) semantic)
      (value_error "trajectory ledger semantic receipt mismatch")
  require (same_flag platform provenance (get "provenance_valid" terminal))
      (value_error "trajectory ledger provenance receipt mismatch")

abbrev optional_flag : Option Bool → List (String × Json Number)
optional_flag none = []
optional_flag (some b) = ("provenance_valid", bool b) ∷ []

abbrev or_null : Option (Json Number) → Json Number
or_null none = null
or_null (some v) = v

module _ (platform : Platform) (arithmetic : Arithmetic) where
  -- The three members of the receipt that are about the ledger.
  unfoldable pub ledger_members : Option (Fields Number) → List (String × Json Number)
  unfolding canonical_json_bytes get
  ledger_members none = []
  ledger_members (some document) =
      ("trajectory_valid", bool true)
      ∷ ("trajectory_ledger_sha256", str (platform.sha256 (canonical_json_bytes (obj document))))
      ∷ ("trajectory_ledger_root_sha256", or_null (get "root_sha256" document))
      ∷ []

  unfoldable pub ledger_file : Option (Fields Number) → List (String × Bytes)
  unfolding canonical_json_bytes
  ledger_file none = []
  ledger_file (some document) = ("ledger.json", canonical_json_bytes (obj document)) ∷ []

  unfoldable pub trajectory_json : PublicTask → List Observation → Json Number
  unfolding observation_to_dict
  trajectory_json task os = obj (
      fields_of (
        ("format", str "proof-gym-trajectory-v2")
        ∷ ("task_id", str task.task_id)
        ∷ ("split", str task.split)
        ∷ ("observations", arr (items_of (dicts os)))
        ∷ []))

  unfoldable pub admission_json :
      PublicTask → Bool → Option Bool → Option (Fields Number) → Json Number
  unfolding host_task_commitment ledger_members
  admission_json task semantic provenance document = obj (
      fields_of (
        ("format", str "proof-gym-admission-v2")
        ∷ ("task_id", str task.task_id)
        ∷ ("semantic_valid", bool semantic)
        ∷ ("host_task_commitment", str (host_task_commitment platform arithmetic task))
        ∷ (optional_flag provenance ++ ledger_members document)))

  -- The files of the bundle, in the order of writing.
  unfoldable pub bundle_files :
      PublicTask
      → Json Number
      → List Observation
      → Bool
      → Option Bool
      → Option (Fields Number)
      → List (String × Bytes)
  unfolding canonical_json_bytes trajectory_json admission_json ledger_file
  bundle_files task view os semantic provenance document =
      ("agent_task_view.json", canonical_json_bytes view)
      ∷ ("trajectory.json", canonical_json_bytes (trajectory_json task os))
      ∷ (ledger_file document
          ++ (
            "admission.json",
            canonical_json_bytes (admission_json task semantic provenance document),
          )
            ∷ [])

  -- {name: {"sha256": ...} for name, data in sorted(files.items())}
  unfoldable pub file_digests : List (String × Bytes) → Fields Number
  unfolding insert_key
  file_digests [] = end
  file_digests ((name, content) ∷ files) =
      insert_key name (obj (fields_of (("sha256", str (platform.sha256 content)) ∷ [])))
        (file_digests files)

  unfoldable pub bundle_manifest : List (String × Bytes) → Json Number
  unfolding file_digests
  bundle_manifest files = obj (
      fields_of (
        ("format", str "artifact-proof-manifest-v1")
        ∷ (
          "artifact",
          obj (fields_of (("name", str "proof-gym-episode") ∷ ("version", str "2") ∷ [])),
        )
        ∷ ("files", obj (file_digests files))
        ∷ ("coverage", obj (fields_of (("complete", bool true) ∷ ("allow_unlisted", arr nil) ∷ [])))
        ∷ ("checks", arr nil)
        ∷ []))

  module _ (verify_artifact : List (String × Bytes) → Result (Bool × Json Number)) where
    -- Writing the directory, and the verdict on it.
    unfoldable pub prove :
        PublicTask
        → Json Number
        → List Observation
        → Bool
        → Option Bool
        → Option (Fields Number)
        → Result Proof
    prove task view os semantic provenance document =
        let files = bundle_files task view os semantic provenance document in
        do
          (passed, report) ←
              verify_artifact (
                files ++ ("ARTIFACT_PROOF.json", canonical_json_bytes (bundle_manifest files)) ∷ [])
          ok (passed, some report)

    -- The tests of the ledger, then the bundle.
    abbrev pub after_receipts : Result (Unit {0}) → Result Proof → Result Proof
    after_receipts (raise e) proof = ok (refused (reason_of "" (raise e)))
    after_receipts (ok _) proof = proof

    unfoldable pub after_payloads :
        PublicTask
        → List Observation
        → Bool
        → Option Bool
        → Fields Number
        → Result (Fields Number × Fields Number)
        → Result Proof
    after_payloads task os semantic provenance document (raise e) =
        ok (refused (reason_of "" (raise e)))
    after_payloads task os semantic provenance document (ok payloads) = do
      view ← agent_view task
      after_receipts
          (check_receipts platform (sha256_json platform (view_to_dict view))
            (host_task_commitment platform arithmetic task)
            (observation_frontier_sha256 platform (dicts os)) semantic provenance payloads)
          (prove task (view_to_dict view) os semantic provenance (some document))

    unfoldable pub verify_bundle :
        PublicTask → List Observation → Bool → Option Bool → Option (Fields Number) → Result Proof
    verify_bundle task os semantic provenance none = do
      view ← agent_view task
      prove task (view_to_dict view) os semantic provenance none
    verify_bundle task os semantic provenance (some document) =
        after_payloads task os semantic provenance document (read_payloads platform document)

    abbrev pub proof_bundle_verifier : ProofVerifier
    proof_bundle_verifier = record { verify = verify_bundle }
