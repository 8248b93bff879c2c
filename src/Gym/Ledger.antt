-- ===== src/Gym/Ledger.antt =====
-- `TrajectoryLedger` of gym/ledger.py: the hash chain that a training episode appends to.
use artifact_proof_lab.Base.{ℕ, String, Bool, Option, none, some, List, [], ◌∷◌, ◌++◌, map, length}
use artifact_proof_lab.Json.{Json, Number, Fields, bool, null, str, arr, obj, items_of, fields_of}
use artifact_proof_lab.Model.{number}
use artifact_proof_lab.Platform.{Platform}
use artifact_proof_lab.Gym.Canonical.{sha256_json, observation_frontier_sha256}

abbrev pub zero_hash : String
zero_hash = "0000000000000000000000000000000000000000000000000000000000000000"

abbrev pub ledger_format : String
ledger_format = "proof-gym-trajectory-ledger-v1"

pub record LedgerEntry : Type 0 where
  pub index : ℕ
  pub kind : String
  pub previous_hash : String
  pub payload_sha256 : String
  pub payload : Fields Number
  pub entry_hash : String

unfoldable pub to_dict : LedgerEntry → Json Number
to_dict e = obj (
    fields_of (
      ("index", number e.index)
      ∷ ("kind", str e.kind)
      ∷ ("previous_hash", str e.previous_hash)
      ∷ ("payload_sha256", str e.payload_sha256)
      ∷ ("payload", obj e.payload)
      ∷ ("entry_hash", str e.entry_hash)
      ∷ []))

-- What an entry's hash is taken of.
abbrev pub header : ℕ → String → String → String → Json Number
header index kind previous_hash payload_sha256 = obj (
    fields_of (
      ("index", number index)
      ∷ ("kind", str kind)
      ∷ ("previous_hash", str previous_hash)
      ∷ ("payload_sha256", str payload_sha256)
      ∷ []))

-- The hash of the last entry.
unfoldable pub root_sha256 : List LedgerEntry → String
root_sha256 [] = zero_hash
root_sha256 (e ∷ []) = e.entry_hash
root_sha256 (e ∷ f ∷ es) = root_sha256 (f ∷ es)

abbrev optional : String → Option String → List (String × Json Number)
optional k none = []
optional k (some s) = (k, str s) ∷ []

module _ (platform : Platform) where
  unfoldable pub new_entry : List LedgerEntry → String → Fields Number → LedgerEntry
  unfolding root_sha256 sha256_json
  new_entry entries kind payload =
      let payload_sha256 = sha256_json platform (obj payload) in
      record {
        index = length entries;
        kind = kind;
        previous_hash = root_sha256 entries;
        payload_sha256 = payload_sha256;
        payload = payload;
        entry_hash =
            sha256_json platform
              (header (length entries) kind (root_sha256 entries) payload_sha256);
      }

  unfoldable pub append : String → Fields Number → List LedgerEntry → List LedgerEntry
  unfolding new_entry
  append kind payload entries = entries ++ new_entry entries kind payload ∷ []

  -- The payloads of the entries.
  abbrev pub start_payload : Json Number → String → Fields Number
  start_payload agent_task_view host_task_commitment = fields_of (
      ("agent_task_view_sha256", str (sha256_json platform agent_task_view))
      ∷ ("host_task_commitment", str host_task_commitment)
      ∷ [])

  abbrev pub observation_payload : List (Json Number) → String → Fields Number
  observation_payload observations phase = fields_of (
      ("phase", str phase)
      ∷ ("observations", arr (items_of observations))
      ∷ ("observations_sha256", str (observation_frontier_sha256 platform observations))
      ∷ [])

  abbrev pub decision_payload : Fields Number → List (Json Number) → Fields Number
  decision_payload decision visible_observations = fields_of (
      ("decision", obj decision)
      ∷ (
        "observation_frontier_sha256",
        str (observation_frontier_sha256 platform visible_observations),
      )
      ∷ [])

  -- `candidate_sha256` is the digest of the candidate's text, when there is one.
  abbrev pub action_payload :
      String → String → List (Json Number) → Bool → Option Bool → Option String → Fields Number
  action_payload decision_entry_hash action observations done accepted candidate_sha256 =
      fields_of (
        (("decision_entry_hash", str decision_entry_hash)
          ∷ ("action", str action)
          ∷ ("done", bool done)
          ∷ ("accepted_candidate", elim accepted [ none ↦ null | some b ↦ bool b ])
          ∷ ("observations", arr (items_of observations))
          ∷ ("observations_sha256", str (observation_frontier_sha256 platform observations))
          ∷ [])
        ++ optional "candidate_sha256" candidate_sha256)

  abbrev pub terminal_payload :
      String → Bool → Bool → Bool → List (Json Number) → Option String → Fields Number
  terminal_payload reason semantic_valid provenance_valid budget_exhausted observations cause =
      fields_of (
        (("terminal_reason", str reason)
          ∷ ("semantic_valid", bool semantic_valid)
          ∷ ("provenance_valid", bool provenance_valid)
          ∷ ("budget_exhausted", bool budget_exhausted)
          ∷ ("observation_frontier_sha256", str (observation_frontier_sha256 platform observations))
          ∷ [])
        ++ optional "caused_by_decision_entry_hash" cause)

  -- __init__
  unfoldable pub start_ledger : Json Number → String → List LedgerEntry
  unfolding append
  start_ledger agent_task_view host_task_commitment =
      append "EPISODE_START" (start_payload agent_task_view host_task_commitment) []

  unfoldable pub record_observation_batch :
      List (Json Number) → String → List LedgerEntry → List LedgerEntry
  unfolding append
  record_observation_batch observations phase =
      append "OBSERVATION_BATCH" (observation_payload observations phase)

  unfoldable pub record_decision :
      Fields Number → List (Json Number) → List LedgerEntry → List LedgerEntry
  unfolding append
  record_decision decision visible_observations =
      append "DECISION" (decision_payload decision visible_observations)

  unfoldable pub record_action_result :
      String
      → String
      → List (Json Number)
      → Bool
      → Option Bool
      → Option String
      → List LedgerEntry
      → List LedgerEntry
  unfolding append
  record_action_result decision_entry_hash action observations done accepted candidate_sha256 =
      append "ACTION_RESULT"
        (action_payload decision_entry_hash action observations done accepted candidate_sha256)

  unfoldable pub record_terminal :
      String
      → Bool
      → Bool
      → Bool
      → List (Json Number)
      → Option String
      → List LedgerEntry
      → List LedgerEntry
  unfolding append
  record_terminal reason semantic_valid provenance_valid budget_exhausted observations cause =
      append "TERMINAL" (
        terminal_payload reason semantic_valid provenance_valid budget_exhausted observations cause)

unfoldable pub to_document : List LedgerEntry → Fields Number
unfolding root_sha256 to_dict
to_document entries = fields_of (
    ("format", str ledger_format)
    ∷ ("root_sha256", str (root_sha256 entries))
    ∷ ("entry_count", number (length entries))
    ∷ ("entries", arr (items_of (map to_dict entries)))
    ∷ [])
