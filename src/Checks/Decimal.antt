-- ===== src/Checks/Decimal.antt =====
-- `_canonical_decimal` of src/artifact_proof/checks.py.
use artifact_proof_lab.Base.{
  ℕ, zero, suc, Bool, List, [], ◌∷◌, reverse_onto, any, not, eqb, if◌then◌else◌,
}
use artifact_proof_lab.Base.Int.{ℤ, pos, succ}
use artifact_proof_lab.Json.{Decimal}

abbrev pub backwards : List ℕ → List ℕ
backwards ds = reverse_onto ds []

-- The loop that pops zeros from the end of the digits: here they stand last digit first.
unfoldable pub strip : List ℕ → ℤ → List ℕ × ℤ
strip [] e = ([], e)
strip (zero ∷ ds) e = strip ds (succ e)
strip (suc d ∷ ds) e = (suc d ∷ ds, e)

-- any(digits)
abbrev pub significant : List ℕ → Bool
significant ds = any (λ d. not (eqb d 0)) ds

unfoldable pub canonical_decimal : Decimal → Decimal
unfolding strip reverse_onto succ
canonical_decimal d =
    if significant d.digits
    then (let (rest, exponent) = strip (backwards d.digits) d.exponent in
        record { sign = d.sign; digits = backwards rest; exponent = exponent })
    else record { sign = 0; digits = 0 ∷ []; exponent = pos 0 }
