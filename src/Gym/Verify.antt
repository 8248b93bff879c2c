-- ===== src/Gym/Verify.antt =====
-- `verify_ledger_document` of gym/ledger.py. `return False, reason` is a raise with the reason.

use artifact_proof_lab.Base.{
  ℕ, suc, String, Bool, true, false, Option, none, some, List, [], ◌∷◌, ◌++◌, length, eqb, ◌==◌,
  if◌then◌else◌,
}
use artifact_proof_lab.Base.Int.{pos}
use artifact_proof_lab.Base.Outcome.{value_error, Result, ok, raise, require, reject, ◌>>=◌, ◌>>◌}
use artifact_proof_lab.Json.{
  Json, Number, Fields, Items, int, float, bool, null, num, str, arr, obj, get, elements,
}
use artifact_proof_lab.Platform.{Platform}
use artifact_proof_lab.Gym.Canonical.{sha256_json, observation_frontier_sha256}
use artifact_proof_lab.Gym.Ledger.{header, zero_hash, ledger_format}

-- value == text
abbrev pub is_text : Option (Json Number) → String → Bool
is_text (some (str s)) t = s == t
is_text _ t = false

-- value == n: in Python, True is 1 and False is 0, and a float may equal an integer.
abbrev pub is_number : Platform → Option (Json Number) → ℕ → Bool
is_number platform (some (num (int (pos m)))) n = eqb m n
is_number platform (some (num (float r))) n = platform.float_is r n
is_number platform (some (bool true)) n = eqb n 1
is_number platform (some (bool false)) n = eqb n 0
is_number platform _ n = false

abbrev pub is_str : Option (Json Number) → Bool
is_str (some (str s)) = true
is_str _ = false

-- value is None
abbrev pub is_none : Option (Json Number) → Bool
is_none none = true
is_none (some null) = true
is_none _ = false

unfoldable pub as_object : Option (Json Number) → String → Result (Fields Number)
as_object (some (obj fs)) reason = ok fs
as_object _ reason = raise (value_error reason)

unfoldable pub as_list : Option (Json Number) → String → Result (List (Json Number))
as_list (some (arr vs)) reason = ok (elements vs)
as_list _ reason = raise (value_error reason)

unfoldable pub as_text : Option (Json Number) → String → Result String
as_text (some (str s)) reason = ok s
as_text _ reason = raise (value_error reason)

-- An entry whose place in the chain is right.
pub record Link : Type 0 where
  pub kind : String
  pub payload : Fields Number
  pub entry_hash : String

-- The variables of the loop.
pub record Chain : Type 0 where
  pub previous_hash : String
  pub observed_frontier : List (Json Number)
  pub pending_decision_hash : Option String
  pub terminal_seen : Bool

abbrev pub first_chain : Chain
first_chain = record {
  previous_hash = zero_hash;
  observed_frontier = [];
  pending_decision_hash = none;
  terminal_seen = false;
}

abbrev pub is_pending : Chain → Bool
is_pending c = elim c.pending_decision_hash [ none ↦ false | some _ ↦ true ]

-- The terminal receipt names the decision that is pending, if one is.
abbrev pub bound_cause : Option String → Option (Json Number) → Bool
bound_cause none cause = is_none cause
bound_cause (some hash) cause = is_text cause hash

unfoldable pub pending_hash : Option String → Result String
pending_hash none = raise (value_error "action result has no preceding decision")
pending_hash (some hash) = ok hash

unfoldable pub filled_list : Option (Json Number) → Result (List (Json Number))
filled_list (some (arr (Items.cons v vs))) = ok (v ∷ elements vs)
filled_list _ = raise (value_error "trajectory ledger has no entries")

unfoldable pub on_start : Link → Chain → Result Chain
on_start link c = do
  require (link.kind == "EPISODE_START")
      (value_error "trajectory ledger must start with EPISODE_START")
  require (is_str (get "host_task_commitment" link.payload))
      (value_error "trajectory ledger missing host task commitment")
  require (is_str (get "agent_task_view_sha256" link.payload))
      (value_error "trajectory ledger missing agent task view commitment")
  ok c

module _ (platform : Platform) where
  abbrev pub entry_hash_of : ℕ → String → String → Fields Number → String
  entry_hash_of index kind previous payload =
      sha256_json platform (header index kind previous (sha256_json platform (obj payload)))

  -- The first half of the loop's body: shape, position and hashes.
  unfoldable pub read_link : ℕ → String → Json Number → Result Link
  unfolding as_object as_text sha256_json
  read_link index previous raw = do
    fields ← as_object (some raw) "trajectory ledger entry must be an object"
    require (is_number platform (get "index" fields) index)
        (value_error "trajectory ledger index is not contiguous")
    kind ← as_text (get "kind" fields) "trajectory ledger entry shape is invalid"
    payload ← as_object (get "payload" fields) "trajectory ledger entry shape is invalid"
    require (is_text (get "previous_hash" fields) previous)
        (value_error "trajectory ledger previous_hash mismatch")
    require (is_text (get "payload_sha256" fields) (sha256_json platform (obj payload)))
        (value_error "trajectory ledger payload hash mismatch")
    require (is_text (get "entry_hash" fields) (entry_hash_of index kind previous payload))
        (value_error "trajectory ledger entry hash mismatch")
    ok (record {
      kind = kind;
      payload = payload;
      entry_hash = entry_hash_of index kind previous payload;
    })

  unfoldable pub on_observations : Link → Chain → Result Chain
  unfolding as_list observation_frontier_sha256
  on_observations link c = do
    reject (is_pending c) (value_error "observation batch cannot bypass pending decision")
    observations ← as_list (get "observations" link.payload) "observation batch payload is invalid"
    require
        (is_text (get "observations_sha256" link.payload)
          (observation_frontier_sha256 platform observations))
        (value_error "observation batch digest mismatch")
    ok (record c { observed_frontier = c.observed_frontier ++ observations })

  unfoldable pub on_decision : Link → Chain → Result Chain
  unfolding as_object observation_frontier_sha256
  on_decision link c = do
    reject (is_pending c) (value_error "decision cannot replace unresolved decision")
    _ ← as_object (get "decision" link.payload) "decision payload is invalid"
    require
        (is_text (get "observation_frontier_sha256" link.payload)
          (observation_frontier_sha256 platform c.observed_frontier))
        (value_error "decision is not bound to the visible observation frontier")
    ok (record c { pending_decision_hash = some link.entry_hash })

  unfoldable pub on_action : Link → Chain → Result Chain
  unfolding as_list observation_frontier_sha256 pending_hash
  on_action link c = do
    pending ← pending_hash c.pending_decision_hash
    require (is_text (get "decision_entry_hash" link.payload) pending)
        (value_error "action result is bound to the wrong decision")
    observations ←
        as_list (get "observations" link.payload) "action result observations are invalid"
    require
        (is_text (get "observations_sha256" link.payload)
          (observation_frontier_sha256 platform observations))
        (value_error "action result observation digest mismatch")
    ok (record c {
      observed_frontier = c.observed_frontier ++ observations;
      pending_decision_hash = none;
    })

  unfoldable pub on_terminal : Link → Chain → Result Chain
  unfolding observation_frontier_sha256
  on_terminal link c = do
    require
        (is_text (get "observation_frontier_sha256" link.payload)
          (observation_frontier_sha256 platform c.observed_frontier))
        (value_error "terminal receipt is not bound to final observations")
    require (bound_cause c.pending_decision_hash (get "caused_by_decision_entry_hash" link.payload))
        (value_error "terminal receipt is not bound to its unresolved decision")
    ok (record c { pending_decision_hash = none; terminal_seen = true })

  -- The chain of conditions on the kind.
  unfoldable pub on_kind : ℕ → Link → Chain → Result Chain
  unfolding on_start on_observations on_decision on_action on_terminal
  on_kind index link c =
      if eqb index 0
      then on_start link c
      else if link.kind == "OBSERVATION_BATCH"
      then on_observations link c
      else if link.kind == "DECISION"
      then on_decision link c
      else if link.kind == "ACTION_RESULT"
      then on_action link c
      else if link.kind == "TERMINAL"
      then on_terminal link c
      else raise (value_error "unsupported trajectory ledger entry kind")

  -- The loop.
  unfoldable pub verify_entries : ℕ → Chain → List (Json Number) → Result Chain
  unfolding read_link on_kind
  verify_entries index c [] = ok c
  verify_entries index c (raw ∷ raws) = do
    link ← read_link index c.previous_hash raw
    reject c.terminal_seen (value_error "trajectory ledger contains entries after terminal")
    next ← on_kind index link c
    verify_entries (suc index) (record next { previous_hash = link.entry_hash }) raws

  unfoldable pub verify_ledger_document : Fields Number → Result (Unit {0})
  unfolding filled_list verify_entries
  verify_ledger_document document = do
    require (is_text (get "format" document) ledger_format)
        (value_error "unsupported trajectory ledger format")
    entries ← filled_list (get "entries" document)
    require (is_number platform (get "entry_count" document) (length entries))
        (value_error "trajectory ledger entry_count mismatch")
    last ← verify_entries 0 first_chain entries
    require last.terminal_seen (value_error "trajectory ledger has no terminal receipt")
    require (is_text (get "root_sha256" document) last.previous_hash)
        (value_error "trajectory ledger root mismatch")
