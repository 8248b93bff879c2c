-- ===== src/Gym/Admission.antt =====
-- `EvidenceAdmission` of gym/core.py, `_tool_cost` and `_count_useless_retries`. `return False,
-- reason` is a raise with the reason. The order of `check_identity` is never looked at.
use artifact_proof_lab.Base.{
  ℕ, zero, suc, ◌+◌, String, Bool, not, ◌&&◌, ◌||◌, Option, none, some, List, [], ◌∷◌, ◌++◌, map,
  any, length, ◌==◌, if◌then◌else◌,
}
use artifact_proof_lab.Base.Int.{ℤ, pos}
use artifact_proof_lab.Base.Pairs.{is_set}
use artifact_proof_lab.Base.Sort.{at_most, same_int, same_ints, sorted_ints}
use artifact_proof_lab.Base.Outcome.{Result, ok, value_error, require, reject, ◌>>=◌, ◌>>◌}
use artifact_proof_lab.Gym.Core.{Observation, Arithmetic}

-- list(range(first, first + count))
unfoldable pub range : ℕ → ℕ → List ℤ
range first zero = []
range first (suc count) = pos first ∷ range (first + 1) count

-- (source_lineage_root, probe_id)
abbrev pub Probe : Type 0
Probe = String × String

abbrev pub probe : Observation → Probe
probe o = (o.source_lineage_root, o.probe_id)

abbrev pub same_probe : Probe → Probe → Bool
same_probe (s, p) (t, q) = s == t && p == q

abbrev pub Checks : Type 0
Checks = List (String × Probe)

unfoldable pub find_check : String → Checks → Option Probe
find_check c [] = none
find_check c ((d, p) ∷ checks) = if d == c then some p else find_check c checks

-- check_identity.setdefault(check_id, identity)
abbrev pub default_check : Option Probe → String → Probe → Checks → Probe × Checks
default_check none c p checks = (p, (c, p) ∷ checks)
default_check (some q) c p checks = (q, checks)

unfoldable pub setdefault : String → Probe → Checks → Probe × Checks
unfolding find_check
setdefault c p checks = default_check (find_check c checks) c p checks

-- (source_lineage_root, check_id, probe_id)
abbrev pub Key : Type 0
Key = String × String × String

abbrev pub key : Observation → Key
key o = (o.source_lineage_root, o.check_id, o.probe_id)

abbrev pub same_key : Key → Key → Bool
same_key (s, c, p) (t, d, q) = s == t && (c == d && p == q)

abbrev pub Groups : Type 0
Groups = List (Key × List Observation)

-- by_identity.setdefault(key, []).append(item)
unfoldable pub add_to : Key → Observation → Groups → Groups
add_to k o [] = (k, o ∷ []) ∷ []
add_to k o ((j, group) ∷ groups) =
    let rest = add_to k o groups in
    if same_key j k then (j, group ++ o ∷ []) ∷ groups else (j, group) ∷ rest

unfoldable pub collect : List Observation → Checks → Groups → Result Groups
unfolding setdefault add_to
collect [] checks groups = ok groups
collect (o ∷ os) checks groups =
    let (previous, bound) = setdefault o.check_id (probe o) checks in
    require (same_probe previous (probe o))
      (value_error "check_id aliases multiple source/probe identities")
    >> collect os bound (add_to (key o) o groups)

abbrev pub attempts : List Observation → List ℤ
attempts group = map (λ o. o.attempt_id) group

unfoldable pub check_attempts : Groups → Result (Unit {0})
unfolding same_ints sorted_ints is_set
check_attempts [] = ok tt
check_attempts ((k, group) ∷ groups) =
    require (same_ints (attempts group) (sorted_ints (attempts group)))
      (value_error "attempt_id moved backwards within an evidence identity")
    >> (require (is_set same_int (attempts group))
          (value_error "attempt_id repeated within an evidence identity")
        >> check_attempts groups)

abbrev pub same_text : String → String → Bool
same_text s t = s == t

-- Whether one of the three names is empty.
abbrev pub unnamed : Observation → Bool
unnamed o = o.source_lineage_root == "" || (o.check_id == "" || o.probe_id == "")

module _ (arithmetic : Arithmetic) where
  abbrev pub bad_cost : Observation → Bool
  bad_cost o = not (arithmetic.is_finite o.cost) || arithmetic.is_negative o.cost

  unfoldable pub provenance_valid : List Observation → Result (Unit {0})
  unfolding range is_set same_ints sorted_ints collect check_attempts
  provenance_valid items =
      let ticks = map (λ o. o.logical_tick) items in
      do
        require (is_set same_text (map (λ o. o.observation_id) items))
            (value_error "duplicate observation_id")
        require (same_ints (map (λ o. o.sequence_index) items) (range 0 (length items)))
            (value_error "non-contiguous sequence_index")
        require (same_ints ticks (sorted_ints ticks) && is_set same_int ticks)
            (value_error "logical_tick must be strictly monotonic")
        reject (any unnamed items) (value_error "missing provenance identity")
        reject (any bad_cost items) (value_error "invalid observation cost")
        by_identity ← collect items [] []
        check_attempts by_identity

  -- _tool_cost
  unfoldable pub tool_cost : List Observation → String
  tool_cost observations = arithmetic.sum (map (λ o. o.cost) observations)

  abbrev pub useless : Observation → Observation → Bool
  unfolding at_most
  useless previous current =
      not (at_most current.attempt_id previous.attempt_id)
      && (arithmetic.equal current.value previous.value && current.status == previous.status)

  -- The pairs of zip(items, items[1:]) that count.
  unfoldable pub retries : List Observation → ℕ
  retries [] = 0
  retries (o ∷ []) = 0
  retries (o ∷ p ∷ os) = (if useless o p then 1 else 0) + retries (p ∷ os)

  retries_of : Groups → ℕ
  unfolding retries
  retries_of [] = 0
  retries_of ((k, group) ∷ groups) = retries group + retries_of groups

-- by_identity of all the observations
unfoldable pub gather : List Observation → Groups → Groups
unfolding add_to
gather [] groups = groups
gather (o ∷ os) groups = gather os (add_to (key o) o groups)

-- _count_useless_retries
unfoldable pub count_useless_retries : Arithmetic → List Observation → ℕ
unfolding retries_of gather
count_useless_retries arithmetic observations = retries_of arithmetic (gather observations [])
