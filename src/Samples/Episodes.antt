-- ===== src/Samples/Episodes.antt =====
-- A short episode of the gym, recorded in a ledger.
use artifact_proof_lab.Base.{
  String, ◌≡◌, refl, true, false, none, some, List, [], ◌∷◌, ◌⊎◌, map, length,
}
use artifact_proof_lab.Base.Outcome
use artifact_proof_lab.Base.Outcome.{Result, ok}
use artifact_proof_lab.Json.{
  Json, Number, Fields, Items, str, arr, get, elements, fields_of, items_of,
}
use artifact_proof_lab.Json.Dump.{dump_string}
use artifact_proof_lab.Gym.Ledger.{
  LedgerEntry, start_ledger, record_observation_batch, record_decision, record_action_result,
  record_terminal, root_sha256, to_document, to_dict,
}
use artifact_proof_lab.Gym.Canonical.{observation_frontier_sha256}
use artifact_proof_lab.Gym.Verify.{verify_ledger_document}
use artifact_proof_lab.Gym.Recording.{
  Recording, started, observed, decided, acted, verify_ledger_document-recorded,
}
use artifact_proof_lab.Gym.Tamper.{Clash, Same, root-binds}
use artifact_proof_lab.Gym.Episodes.{Episode, verify_ledger_document-Episode}
use artifact_proof_lab.Samples.{platform, other_digest}

abbrev first : List (Json Number)
first = str "door closed" ∷ []

abbrev second : List (Json Number)
second = str "door open" ∷ []

abbrev decision : Fields Number
decision = fields_of (("action", str "open") ∷ [])

abbrev opening : List LedgerEntry
opening =
    record_decision platform decision first
      (record_observation_batch platform first "reset" (start_ledger platform (str "task") "host"))

abbrev sample_ledger : List LedgerEntry
sample_ledger =
    record_terminal platform "SUCCESS" true true false (str "door closed" ∷ str "door open" ∷ [])
      none
      (record_action_result platform (root_sha256 opening) "open" second true none none opening)

sample_accepted : verify_ledger_document platform (to_document sample_ledger) ≡ ok tt
unfolding verify_ledger_document to_document record_terminal record_action_result record_decision
    record_observation_batch start_ledger Outcome.◌>>=◌ get elements dump_string
sample_accepted = refl

verify_ledger_document-Episode_example :
    (raws : Items Number) × (root : String) × (get "entries" (to_document sample_ledger)
      ≡ some (arr raws))
    × (get "root_sha256" (to_document sample_ledger) ≡ some (str root))
    × Episode platform (elements raws) root
verify_ledger_document-Episode_example =
    verify_ledger_document-Episode platform (to_document sample_ledger) sample_accepted

-- The same episode with another outcome: the sample digest does not tell the two apart.
abbrev other_ledger : List LedgerEntry
other_ledger =
    record_terminal platform "FAILURE" true true false (str "door closed" ∷ str "door open" ∷ [])
      none
      (record_action_result platform (root_sha256 opening) "open" second true none none opening)

other_accepted : verify_ledger_document platform (to_document other_ledger) ≡ ok tt
unfolding verify_ledger_document to_document record_terminal record_action_result record_decision
    record_observation_batch start_ledger Outcome.◌>>=◌ get elements dump_string
other_accepted = refl

abbrev entries_of : List LedgerEntry → Items Number
entries_of entries = items_of (map to_dict entries)

sample_entries : get "entries" (to_document sample_ledger) ≡ some (arr (entries_of sample_ledger))
unfolding get to_document
sample_entries = refl

other_entries : get "entries" (to_document other_ledger) ≡ some (arr (entries_of other_ledger))
unfolding get to_document
other_entries = refl

sample_root : get "root_sha256" (to_document sample_ledger) ≡ some (str other_digest)
unfolding get to_document record_terminal record_action_result record_decision
    record_observation_batch start_ledger dump_string observation_frontier_sha256
sample_root = refl

other_root : get "root_sha256" (to_document other_ledger) ≡ some (str other_digest)
unfolding get to_document record_terminal record_action_result record_decision
    record_observation_batch start_ledger dump_string observation_frontier_sha256
other_root = refl

same_length :
    length (elements (entries_of sample_ledger)) ≡ length (elements (entries_of other_ledger))
unfolding elements record_terminal record_action_result record_decision record_observation_batch
    start_ledger
same_length = refl

root-binds_example :
    Clash platform 0 (elements (entries_of sample_ledger)) (elements (entries_of other_ledger))
    ⊎ Same (elements (entries_of sample_ledger)) (elements (entries_of other_ledger))
root-binds_example =
    root-binds platform (to_document sample_ledger) (to_document other_ledger)
      (entries_of sample_ledger) (entries_of other_ledger) other_digest sample_accepted
      other_accepted sample_entries other_entries sample_root other_root same_length

abbrev acted_ledger : List LedgerEntry
acted_ledger =
    record_action_result platform (root_sha256 opening) "open" second true none none opening

abbrev shown : List (Json Number)
shown = str "door closed" ∷ str "door open" ∷ []

acted_in_order : Recording platform acted_ledger shown none
acted_in_order = acted (root_sha256 opening) "open" second true none none opening first (
    decided decision
      (record_observation_batch platform first "reset" (start_ledger platform (str "task") "host"))
      first
      (observed first "reset" (start_ledger platform (str "task") "host") []
        (started (str "task") "host")))

verify_ledger_document-recorded_example :
    verify_ledger_document platform (to_document sample_ledger) ≡ ok tt
verify_ledger_document-recorded_example =
    verify_ledger_document-recorded platform "SUCCESS" true true false acted_ledger shown none
      acted_in_order
