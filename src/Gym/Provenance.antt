-- ===== src/Gym/Provenance.antt =====
-- What `EvidenceAdmission.provenance_valid` of gym/core.py accepts.
mod Identities
mod Attempts
use artifact_proof_lab.Base.{
  ℕ, zero, suc, ◌+◌, String, ◌≡◌, ◌≢◌, refl, ap, sym, subst, ◌∙◌, ◌↔◌, inl, inr, Bool, true, false,
  not, ◌&&◌, ◌||◌, Option, none, some, List, [], ◌∷◌, ◌++◌, map, any, length, All, All-map, ◌==◌,
  eq_iff, if◌then◌else◌, Bool-cases, Option-cases, and_true, or_false, some-eq, arith,
}
use artifact_proof_lab.Base.Int.{ℤ, pos}
use artifact_proof_lab.Base.Pairs.{
  Pairwise, Pairwise-map, Pairwise-image, Pairwise-both, All-both, All-of, All-snoc, Pairwise-snoc,
  Accepts, Accepts-iff, is_set, is_set_iff,
}
use artifact_proof_lab.Base.Sort.{
  ◌<ℤ◌, same_int, same_int_iff, same_ints, same_ints_iff, sorted_ints, is_increasing,
  is_increasing_iff,
}
use artifact_proof_lab.Base.Outcome.{
  Exception, Result, ok, ok-injective, raise, value_error, require, reject, ◌>>=◌, ◌>>◌, >>-ok,
  reject-ok,
}
use artifact_proof_lab.Gym.Core.{Observation, Arithmetic}
use artifact_proof_lab.Gym.Admission.{
  range, Probe, probe, same_probe, Checks, find_check, default_check, setdefault, Key, key,
  same_key, Groups, add_to, collect, attempts, check_attempts, same_text, unnamed, bad_cost,
  provenance_valid, gather,
}
use artifact_proof_lab.Gym.Provenance.Identities.{
  SameCheck, IsBound, bind_check, IsBound-bind, collect_iff,
}
use artifact_proof_lab.Gym.Provenance.Attempts.{
  SameKey, AllRising, IsLast, group_of, add_own, IsLast-add, gather-AllRising, check_attempts_iff,
}

-- What the later of two observations owes the earlier one.
abbrev pub Follows : Observation → Observation → Type 0
Follows x y =
    (x.observation_id ≢ y.observation_id)
    × (x.logical_tick <ℤ y.logical_tick)
    × (x.check_id ≡ y.check_id → (probe x ≡ probe y) × (x.attempt_id <ℤ y.attempt_id))

abbrev pub IsSound : Arithmetic → Observation → Type 0
IsSound arithmetic o =
    (o.source_lineage_root ≢ "")
    × (o.check_id ≢ "")
    × (o.probe_id ≢ "")
    × (arithmetic.is_finite o.cost ≡ true)
    × (arithmetic.is_negative o.cost ≡ false)

-- The sequence indices count from a number on.
abbrev pub Numbered : ℕ → List Observation → Type 0
Numbered n [] = Unit
Numbered n (o ∷ os) = (o.sequence_index ≡ pos n) × Numbered (n + 1) os

abbrev pub IsEvidence : Arithmetic → List Observation → Type 0
IsEvidence arithmetic os = Numbered 0 os × All (IsSound arithmetic) os × Pairwise Follows os

cons-eq : {A : Type 0} {x y : A} {xs ys : List A} → x ∷ xs ≡ y ∷ ys → (x ≡ y) × (xs ≡ ys)
cons-eq e = (cc, cc)

Numbered-iff :
    (n : ℕ) (os : List Observation)
    → (map (λ o. o.sequence_index) os ≡ range n (length os)) ↔ Numbered n os
unfolding range
Numbered-iff n [] = (λ h. tt, λ h. refl)
Numbered-iff n (o ∷ os) =
    let (there, back) = Numbered-iff (n + 1) os in
    (λ h. let (first, later) = cons-eq h in (first, there later), λ h. rw (h.0, back h.1) refl)

any-none :
    {A : Type 0} (p : A → Bool) (xs : List A) → (any p xs ≡ false) ↔ All (λ x. p x ≡ false) xs
any-none p [] = (λ h. tt, λ h. refl)
any-none p (x ∷ xs) =
    let (there, back) = any-none p xs in
    (
      λ h. let (first, later) = or_false (p x) (any p xs) h in (first, there later),
      λ h. rw (h.0, back h.1) refl,
    )

any-IsSound :
    (arithmetic : Arithmetic) (os : List Observation)
    → ((any unnamed os ≡ false) × (any (bad_cost arithmetic) os ≡ false))
      ↔ All (IsSound arithmetic) os
any-IsSound arithmetic [] = (λ h. tt, λ h. (refl, refl))
any-IsSound arithmetic (o ∷ os) =
    let (there, back) = any-IsSound arithmetic os in
    let source = eq_iff o.source_lineage_root "" in
    let check = eq_iff o.check_id "" in
    let probe_name = eq_iff o.probe_id "" in
    (
      λ h. (ground (arith, source, check, probe_name), there (ground arith)),
      λ h. let rest = back h.1 in ground (arith, source, check, probe_name),
    )

-- The demands of the loop and of the tests before it, on every two observations.
Follows-parts :
    (x y : Observation)
    → (((x.observation_id ≢ y.observation_id) × (x.logical_tick <ℤ y.logical_tick))
        × (SameCheck x y × SameKey x y))
    → Follows x y
unfolding SameCheck SameKey
Follows-parts x y ((ids, ticks), (checks, keys)) =
    (ids, ticks, λ same. let bound = checks same in (bound, keys (cc (same, bound))))

Follows-SameCheck : (x y : Observation) → Follows x y → SameCheck x y
unfolding SameCheck
Follows-SameCheck x y (ids, ticks, checks) = λ same. (checks same).0

Follows-SameKey : (x y : Observation) → Follows x y → SameKey x y
unfolding SameKey
Follows-SameKey x y (ids, ticks, checks) = λ same. (checks (ap (λ (k : Key). k.1) same)).1

bind_unit-ok :
    (r : Result Groups)
    → ((r >>= check_attempts) ≡ ok tt) ↔ ((g : Groups) × (r ≡ ok g) × (check_attempts g ≡ ok tt))
unfolding ◌>>=◌
bind_unit-ok (ok g) = (λ h. (g, refl, h), λ (f, e, h). rw (ok-injective e) h)
bind_unit-ok (raise e) = (λ h. cc, λ (f, g, h). cc)

-- The two loops over the observations.
loops_iff :
    (os : List Observation)
    → ((collect os [] [] >>= check_attempts) ≡ ok tt)
      ↔ (Pairwise SameCheck os × Pairwise SameKey os)
unfolding IsBound IsLast AllRising group_of find_check
loops_iff os =
    let (out, into) = bind_unit-ok (collect os [] []) in
    let (check, checked) = collect_iff os [] [] (gather os []) in
    let (pairs, unpairs) = Accepts-iff IsBound bind_check SameCheck IsBound-bind os [] in
    let (keys, unkeys) = Accepts-iff IsLast add_own SameKey IsLast-add os [] in
    let (rising, unrising) = gather-AllRising os [] in
    let (tried, untried) = check_attempts_iff (gather os []) in
    let no_check : All (λ o. IsBound o []) os = All-of (λ o. IsBound o []) (λ o p found. cc) os in
    let no_key : All (λ o. IsLast o []) os = All-of (λ o. IsLast o []) (λ o. tt) os in
    (
      λ h.
          let (g, collected, fine) = out h in
          let (bound, same) = (collect_iff os [] [] g).0 collected in
          (
            (pairs bound).1,
            (keys (rising (tried (subst (λ f. check_attempts f ≡ ok tt) (sym same) fine))).1).1,
          ),
      λ h. into (
        gather os [],
        checked (unpairs (no_check, h.0), refl),
        untried (unrising (tt, unkeys (no_key, h.1))),
      ),
    )

-- Five tests in a row, then the rest.
five_tests :
    (a b c d e : Bool) (ea eb ec ed ee : Exception) (rest : Result (Unit {0}))
    → ((require a ea >> (require b eb >> (require c ec >> (reject d ed >> (reject e ee >> rest)))))
        ≡ ok tt)
      ↔ ((a ≡ true) × (b ≡ true) × (c ≡ true) × ((d ≡ false) × (e ≡ false)) × (rest ≡ ok tt))
unfolding ◌>>=◌
five_tests true true true false false ea eb ec ed ee rest =
    (λ h. (refl, refl, refl, (refl, refl), h), λ (p, q, r, s, h). h)
five_tests true true true false true ea eb ec ed ee rest = (λ h. cc, λ h. cc)
five_tests true true true true e ea eb ec ed ee rest = (λ h. cc, λ h. cc)
five_tests true true false d e ea eb ec ed ee rest = (λ h. cc, λ h. cc)
five_tests true false c d e ea eb ec ed ee rest = (λ h. cc, λ h. cc)
five_tests false b c d e ea eb ec ed ee rest = (λ h. cc, λ h. cc)

distinct_ids :
    (os : List Observation)
    → (is_set same_text (map (λ o. o.observation_id) os) ≡ true)
      ↔ Pairwise (λ x y. x.observation_id ≢ y.observation_id) os
distinct_ids os =
    let (out, into) = is_set_iff same_text eq_iff (map (λ o. o.observation_id) os) in
    let (there, back) = Pairwise-image (λ (o : Observation). o.observation_id) ◌≢◌ os in
    (λ h. there (out h), λ h. into (back h))

rising_ticks :
    (os : List Observation)
    → (is_increasing (map (λ o. o.logical_tick) os) ≡ true)
      ↔ Pairwise (λ x y. x.logical_tick <ℤ y.logical_tick) os
rising_ticks os =
    let (out, into) = is_increasing_iff (map (λ o. o.logical_tick) os) in
    let (there, back) = Pairwise-image (λ (o : Observation). o.logical_tick) ◌<ℤ◌ os in
    (λ h. there (out h), λ h. into (back h))

-- Observations are admitted as evidence exactly when their sequence indices are their places, each
-- has named its source, check and probe and has a finite cost that is not negative, and every later
-- one has another identifier and a greater tick than every earlier one, and if it is of the same
-- check, then it is of the same source and probe, with a greater attempt.
pub provenance_valid_iff :
    (arithmetic : Arithmetic) (os : List Observation)
    → (provenance_valid arithmetic os ≡ ok tt) ↔ IsEvidence arithmetic os
unfolding provenance_valid is_increasing
provenance_valid_iff arithmetic os =
    let (out, into) =
      five_tests (is_set same_text (map (λ o. o.observation_id) os)) _ _ _ _ _ _ _ _ _
        (collect os [] [] >>= check_attempts) in
    let (numbered, numbers) = Numbered-iff 0 os in
    let (same, sames) = same_ints_iff (map (λ o. o.sequence_index) os) (range 0 (length os)) in
    let (sound, sounds) = any-IsSound arithmetic os in
    let (looped, loops) = loops_iff os in
    (
      λ h.
          let (ids, places, ticks, fine, rest) = out h in
          let (checks, keys) = looped rest in
          (
            numbered (same places),
            sound fine,
            Pairwise-map os Follows-parts (
                Pairwise-both _ _ os
                  (Pairwise-both _ _ os ((distinct_ids os).0 ids) ((rising_ticks os).0 ticks))
                  (Pairwise-both SameCheck SameKey os checks keys)),
          ),
      λ (places, fine, follows). into (
        (distinct_ids os).1 (Pairwise-map os (λ x y h. h.0) follows),
        sames (numbers places),
        (rising_ticks os).1 (Pairwise-map os (λ x y h. h.1) follows),
        sounds fine,
        loops (Pairwise-map os Follows-SameCheck follows, Pairwise-map os Follows-SameKey follows),
      ),
    )
