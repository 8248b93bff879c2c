-- ===== src/Gym/Provenance/Identities.antt =====
-- The loop of `provenance_valid` in gym/core.py over the check identities.
use artifact_proof_lab.Base.{
  String, ◌≡◌, refl, ap, sym, ◌∙◌, ◌↔◌, inl, inr, true, none, some, List, [], ◌∷◌, ◌==◌, eq_iff,
  if◌then◌else◌, Bool-cases, Option-cases, some-eq, arith,
}
use artifact_proof_lab.Base.Pairs.{Accepts}
use artifact_proof_lab.Base.Outcome.{ok, ok-injective, value_error, require, ◌>>◌, >>-ok}
use artifact_proof_lab.Gym.Core.{Observation}
use artifact_proof_lab.Gym.Admission.{
  Probe, probe, same_probe, Checks, find_check, setdefault, key, Groups, add_to, collect, gather,
}

-- The check identities.
unfoldable pub SameCheck : Observation → Observation → Type 0
SameCheck x y = x.check_id ≡ y.check_id → probe x ≡ probe y

unfoldable pub IsBound : Observation → Checks → Type 0
IsBound o checks = (p : Probe) → find_check o.check_id checks ≡ some p → p ≡ probe o

abbrev pub bind_check : Observation → Checks → Checks
bind_check o checks = (setdefault o.check_id (probe o) checks).1

same_probe_iff : (p q : Probe) → (same_probe p q ≡ true) ↔ (p ≡ q)
same_probe_iff (s, p) (t, q) =
    (λ h. ground (arith, eq_iff s t, eq_iff p q), λ h. ground (arith, eq_iff s t, eq_iff p q))

bind_known :
    (o : Observation) (checks : Checks) (q : Probe)
    → find_check o.check_id checks ≡ some q
    → setdefault o.check_id (probe o) checks ≡ (q, checks)
unfolding setdefault
bind_known o checks q e = rw e refl

bind_new :
    (o : Observation) (checks : Checks)
    → find_check o.check_id checks ≡ none
    → setdefault o.check_id (probe o) checks ≡ (probe o, (o.check_id, probe o) ∷ checks)
unfolding setdefault
bind_new o checks e = rw e refl

find_check-new :
    (o : Observation) (checks : Checks) (c : String)
    → find_check c ((o.check_id, probe o) ∷ checks)
      ≡ (if o.check_id == c then some (probe o) else find_check c checks)
unfolding find_check
find_check-new o checks c = refl

pub IsBound-bind :
    (later o : Observation) (checks : Checks)
    → IsBound o checks
    → IsBound later (bind_check o checks) ↔ (IsBound later checks × SameCheck o later)
unfolding IsBound SameCheck
IsBound-bind later o checks fits = elim (Option-cases (find_check o.check_id checks)) [
  | inl e ↦
      rw (bind_check, bind_new o checks e)
        (
          λ h. (
            λ p found. h p (elim (Bool-cases (o.check_id == later.check_id)) [
              | inl same ↦
                  let same_check = (eq_iff o.check_id later.check_id).0 same in
                  absurd
                    (let bad : find_check o.check_id checks ≡ some p = rw same_check found in cc)
              | inr other ↦ find_check-new o checks later.check_id ∙ rw other found
            ]),
            λ same. h (probe o) (
                find_check-new o checks later.check_id
                ∙ rw ((eq_iff o.check_id later.check_id).1 same) refl),
          ),
          λ h p found. elim (Bool-cases (o.check_id == later.check_id)) [
            | inl same ↦
                let same_check = (eq_iff o.check_id later.check_id).0 same in
                some-eq (
                  sym (
                    let now = sym (find_check-new o checks later.check_id) ∙ found in
                    rw same at now))
                ∙ h.1 same_check
            | inr other ↦
                let now = sym (find_check-new o checks later.check_id) ∙ found in
                h.0 p (rw other at now)
          ],
        )
  | inr (q, e) ↦
      rw (bind_check, bind_known o checks q e)
        (λ h. (h, λ same. sym (fits q e) ∙ h q (rw same at e)), λ h. h.0)
]

-- One round of the loop.
collect-cons :
    (o : Observation) (os : List Observation) (checks : Checks) (groups : Groups)
    → collect (o ∷ os) checks groups ≡ (
        require
          (same_probe (setdefault o.check_id (probe o) checks).0 (probe o))
          (value_error "check_id aliases multiple source/probe identities")
        >> collect os (bind_check o checks) (add_to (key o) o groups))
unfolding collect
collect-cons o os checks groups = refl

default-IsBound :
    (o : Observation) (checks : Checks)
    → (same_probe (setdefault o.check_id (probe o) checks).0 (probe o) ≡ true) ↔ IsBound o checks
unfolding IsBound
default-IsBound o checks = elim (Option-cases (find_check o.check_id checks)) [
  | inl e ↦
      rw (bind_new o checks e) (λ h p found. cc, λ h. (same_probe_iff (probe o) (probe o)).1 refl)
  | inr (q, e) ↦ rw (bind_known o checks q e) (
    λ h p found. some-eq (sym found ∙ e) ∙ (same_probe_iff q (probe o)).0 h,
    λ h. (same_probe_iff q (probe o)).1 (h q e),
  )
]

pub collect_iff :
    (os : List Observation) (checks : Checks) (groups collected : Groups)
    → (collect os checks groups ≡ ok collected)
      ↔ (Accepts IsBound bind_check os checks × (gather os groups ≡ collected))
unfolding gather
collect_iff [] checks groups collected =
    unfold collect in (λ h. (tt, ok-injective h), λ h. ap ok h.1)
collect_iff (o ∷ os) checks groups collected =
    let (there, back) = collect_iff os (bind_check o checks) (add_to (key o) o groups) collected in
    let (out, into) =
      >>-ok (same_probe (setdefault o.check_id (probe o) checks).0 (probe o))
        (value_error "check_id aliases multiple source/probe identities")
        (collect os (bind_check o checks) (add_to (key o) o groups)) collected in
    let (bound, unbound) = default-IsBound o checks in
    (
      λ h.
          let (first, rest) = out (sym (collect-cons o os checks groups) ∙ h) in
          ((bound first, (there rest).0), (there rest).1),
      λ h. collect-cons o os checks groups ∙ into (unbound h.0.0, back (h.0.1, h.1)),
    )
