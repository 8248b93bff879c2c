-- ===== src/Gym/Provenance/Attempts.antt =====
-- The attempts of `provenance_valid` in gym/core.py, by evidence identity.
use artifact_proof_lab.Base.{
  ◌≡◌, refl, ◌↔◌, inl, inr, true, false, List, [], ◌∷◌, ◌++◌, All, eq_iff, if◌then◌else◌,
  Bool-cases, and_true, arith,
}
use artifact_proof_lab.Base.Pairs.{
  Pairwise, Pairwise-image, All-snoc, Pairwise-snoc, Accepts, is_set,
}
use artifact_proof_lab.Base.Sort.{
  ◌<ℤ◌, same_int, same_ints, sorted_ints, is_increasing, is_increasing_iff,
}
use artifact_proof_lab.Base.Outcome.{ok, value_error, require, ◌>>◌, >>-ok}
use artifact_proof_lab.Gym.Core.{Observation}
use artifact_proof_lab.Gym.Admission.{
  Key, key, same_key, Groups, add_to, attempts, check_attempts, gather,
}

pub same_key_iff : (j k : Key) → (same_key j k ≡ true) ↔ (j ≡ k)
same_key_iff (s, c, p) (t, d, q) = (
  λ h. ground (arith, eq_iff s t, eq_iff c d, eq_iff p q),
  λ h. ground (arith, eq_iff s t, eq_iff c d, eq_iff p q),
)

-- The attempts, by evidence identity.
unfoldable pub SameKey : Observation → Observation → Type 0
SameKey x y = key x ≡ key y → x.attempt_id <ℤ y.attempt_id

abbrev pub Rising : List Observation → Type 0
Rising group = Pairwise (λ x y. x.attempt_id <ℤ y.attempt_id) group

unfoldable pub group_of : Key → Groups → List Observation
group_of k [] = []
group_of k ((j, group) ∷ groups) = if same_key j k then group else group_of k groups

unfoldable pub AllRising : Groups → Type 0
AllRising [] = Unit
AllRising ((k, group) ∷ groups) = Rising group × AllRising groups

unfoldable pub IsLast : Observation → Groups → Type 0
IsLast o groups = All (λ x. x.attempt_id <ℤ o.attempt_id) (group_of (key o) groups)

abbrev pub add_own : Observation → Groups → Groups
add_own o groups = add_to (key o) o groups

same_key_refl : (k : Key) → same_key k k ≡ true
same_key_refl k = (same_key_iff k k).1 refl

AllRising-add_to :
    (o : Observation) (k : Key) (groups : Groups)
    → AllRising (add_to k o groups)
      ↔ (AllRising groups × All (λ x. x.attempt_id <ℤ o.attempt_id) (group_of k groups))
unfolding AllRising add_to group_of
AllRising-add_to o k [] = (λ h. (tt, tt), λ h. ((tt, tt), tt))
AllRising-add_to o k ((j, group) ∷ groups) =
    let (there, back) = AllRising-add_to o k groups in
    let (out, into) = Pairwise-snoc (λ x y. x.attempt_id <ℤ y.attempt_id) group o in
    elim (Bool-cases (same_key j k)) [
      | inl e ↦ rw e (λ h. (((out h.0).0, h.1), (out h.0).1), λ h. (into (h.0.0, h.1), h.0.1))
      | inr e ↦ rw e (λ h. ((h.0, (there h.1).0), (there h.1).1), λ h. (h.0.0, back (h.0.1, h.1)))
    ]

-- The group of a key after an observation was added to the group of another, or of the same.
group_of-add_to :
    (o : Observation) (j k : Key) (groups : Groups)
    → group_of k (add_to j o groups)
      ≡ (if same_key j k then group_of k groups ++ o ∷ [] else group_of k groups)
unfolding group_of add_to
group_of-add_to o j k [] = refl
group_of-add_to o j k ((i, group) ∷ groups) = elim (Bool-cases (same_key i j)) [
  | inl e ↦
      let same = (same_key_iff i j).0 e in
      rw (e, same) (elim (Bool-cases (same_key j k)) [ inl f ↦ rw f refl | inr f ↦ rw f refl ])
  | inr e ↦ rw e (elim (Bool-cases (same_key i k)) [
    | inl f ↦
        let other : same_key j k ≡ false = elim (Bool-cases (same_key j k)) [
          | inl g ↦ cc ((same_key_iff j k).0 g)
          | inr g ↦ g
        ] in
        rw (f, other) refl
    | inr f ↦ rw f (group_of-add_to o j k groups)
  ])
]

pub IsLast-add :
    (later o : Observation) (groups : Groups)
    → IsLast o groups
    → IsLast later (add_own o groups) ↔ (IsLast later groups × SameKey o later)
unfolding IsLast SameKey
IsLast-add later o groups fits =
    let own = group_of (key later) groups in
    let (out, into) = All-snoc (λ x. x.attempt_id <ℤ later.attempt_id) own o in
    rw (group_of-add_to o (key o) (key later) groups)
      (elim (Bool-cases (same_key (key o) (key later))) [
        | inl e ↦ rw e (
          λ h. ((out h).0, λ same. (out h).1),
          λ h. into (h.0, h.1 ((same_key_iff (key o) (key later)).0 e)),
        )
        | inr e ↦ rw e (λ h. (h, λ same. cc ((same_key_iff (key o) (key later)).1 same)), λ h. h.0)
      ])

pub gather-AllRising :
    (os : List Observation) (groups : Groups)
    → AllRising (gather os groups) ↔ (AllRising groups × Accepts IsLast add_own os groups)
unfolding gather IsLast
gather-AllRising [] groups = (λ h. (h, tt), λ h. h.0)
gather-AllRising (o ∷ os) groups =
    let (there, back) = gather-AllRising os (add_own o groups) in
    let (out, into) = AllRising-add_to o (key o) groups in
    (
      λ h. let (first, rest) = out (there h).0 in (first, (rest, (there h).1)),
      λ h. back (into (h.0, h.1.0), h.1.1),
    )

pub check_attempts_iff : (groups : Groups) → (check_attempts groups ≡ ok tt) ↔ AllRising groups
unfolding check_attempts AllRising is_increasing
check_attempts_iff [] = (λ h. tt, λ h. refl)
check_attempts_iff ((k, group) ∷ groups) =
    let ns = attempts group in
    let (there, back) = check_attempts_iff groups in
    let backwards = value_error "attempt_id moved backwards within an evidence identity" in
    let repeated = value_error "attempt_id repeated within an evidence identity" in
    let rest = require (is_set same_int ns) repeated >> check_attempts groups in
    let (first, again) = >>-ok (same_ints ns (sorted_ints ns)) backwards rest tt in
    let (second, once) = >>-ok (is_set same_int ns) repeated (check_attempts groups) tt in
    let (rising, risen) = is_increasing_iff ns in
    let (out, into) = Pairwise-image (λ (o : Observation). o.attempt_id) ◌<ℤ◌ group in
    (
      λ h.
          let (a, b) = first h in let (c, d) = second b in (out (rising (rw (a, c) refl)), there d),
      λ h. let (a, c) = and_true _ _ (risen (into h.0)) in again (a, once (c, back h.1)),
    )
