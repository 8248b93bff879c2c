-- ===== src/Checks/DecimalLaws.antt =====
-- `_canonical_decimal` decides numerical equality.
use Prim.Native.Nat.add
use artifact_proof_lab.Base.{
  ℕ, zero, suc, ◌+◌, ◌*◌, ◌%◌, ◌<◌, ◌≡◌, ◌≢◌, refl, ap, ◌∙◌, ◌⊎◌, List, [], ◌∷◌, All, arith,
}
use artifact_proof_lab.Base.Int.{pos_part, neg_part}
use artifact_proof_lab.Json.{Decimal}
use artifact_proof_lab.Checks.Decimal.{backwards}

-- n * 10 ^ k
unfoldable pub shift : ℕ → ℕ → ℕ
shift zero n = n
shift (suc k) n = 10 * shift k n

-- The number that digits spell, the last digit first.
unfoldable pub spelled : List ℕ → ℕ
spelled [] = 0
spelled (d ∷ ds) = d + 10 * spelled ds

abbrev pub value : Decimal → ℕ
value d = spelled (backwards d.digits)

-- The last digit of the list is not 0: last digit first, there are no leading zeros.
abbrev pub NoLeadingZero : List ℕ → Type 0
NoLeadingZero [] = ⊥
NoLeadingZero (d ∷ []) = d ≢ 0
NoLeadingZero (d ∷ e ∷ ds) = NoLeadingZero (e ∷ ds)

abbrev pub IsDigit : ℕ → Type 0
IsDigit d = d < 10

-- What `Decimal.as_tuple` returns: decimal digits, with no leading zero but for zero itself.
pub record IsTuple (d : Decimal) : Type 0 where
  pub digits : All IsDigit (backwards d.digits)
  pub lead : value d ≢ 0 → NoLeadingZero (backwards d.digits)

-- The same number: both are zero, or the signs agree and so do the digits at a common exponent.
abbrev pub SameNumber : Decimal → Decimal → Type 0
SameNumber a b =
    ((value a ≡ 0) × (value b ≡ 0))
    ⊎ ((value a ≢ 0)
        × (a.sign ≡ b.sign)
        × (shift (pos_part a.exponent + neg_part b.exponent) (value a)
            ≡ shift (pos_part b.exponent + neg_part a.exponent) (value b)))

pub shift-add : (a b n : ℕ) → shift (a + b) n ≡ shift a (shift b n)
unfolding shift
shift-add zero b n = ap (λ k. shift k n) (omega arith)
shift-add (suc a) b n = ap (λ k. shift k n) (add.suc a b) ∙ ap (λ t. 10 * t) (shift-add a b n)

pub shift_zero : (k n : ℕ) → shift k n ≡ 0 → n ≡ 0
unfolding shift
shift_zero zero n e = e
shift_zero (suc k) n e = shift_zero k n (omega arith)

pub shift_cancel : (k m n : ℕ) → shift k m ≡ shift k n → m ≡ n
unfolding shift
shift_cancel zero m n e = e
shift_cancel (suc k) m n e = shift_cancel k m n (omega arith)

-- A number that is no multiple of 10 fixes the power of 10 beside it.
pub shift-injective :
    (a b m n : ℕ) → m % 10 ≢ 0 → n % 10 ≢ 0 → shift a m ≡ shift b n → (a ≡ b) × (m ≡ n)
unfolding shift
shift-injective zero zero m n hm hn e = (refl, e)
shift-injective zero (suc b) m n hm hn e = absurd (hm (omega arith))
shift-injective (suc a) zero m n hm hn e = absurd (hn (omega arith))
shift-injective (suc a) (suc b) m n hm hn e =
    let (same, equal) = shift-injective a b m n hm hn (omega arith) in (ap suc same, equal)

pub NoLeadingZero-spelled : (ds : List ℕ) → NoLeadingZero ds → spelled ds ≢ 0
unfolding spelled
NoLeadingZero-spelled [] h e = absurd h
NoLeadingZero-spelled (d ∷ []) h e = h (omega arith)
NoLeadingZero-spelled (d ∷ c ∷ ds) h e = NoLeadingZero-spelled (c ∷ ds) h (omega arith)

-- Digits without a leading zero are fixed by the number that they spell.
pub spelled-injective :
    (xs ys : List ℕ)
    → All IsDigit xs
    → All IsDigit ys
    → NoLeadingZero xs
    → NoLeadingZero ys
    → spelled xs ≡ spelled ys
    → xs ≡ ys
unfolding spelled
spelled-injective [] ys dx dy nx ny e = absurd nx
spelled-injective (x ∷ xs) [] dx dy nx ny e = absurd ny
spelled-injective (x ∷ []) (y ∷ []) dx dy nx ny e = cc (same)
  where
    same : x ≡ y
    same = omega arith
spelled-injective (x ∷ []) (y ∷ c ∷ ys) dx dy nx ny e =
    absurd (NoLeadingZero-spelled (c ∷ ys) ny (unfold spelled in omega arith))
spelled-injective (x ∷ c ∷ xs) (y ∷ []) dx dy nx ny e =
    absurd (NoLeadingZero-spelled (c ∷ xs) nx (unfold spelled in omega arith))
spelled-injective (x ∷ c ∷ xs) (y ∷ d ∷ ys) dx dy nx ny e =
    cc (same, spelled-injective (c ∷ xs) (d ∷ ys) dx.1 dy.1 nx ny rest)
  where
    same : x ≡ y
    same = omega arith

    rest : spelled (c ∷ xs) ≡ spelled (d ∷ ys)
    rest = omega arith
