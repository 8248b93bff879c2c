-- ===== src/Checks/DecimalEq.antt =====
-- `_canonical_decimal` decides numerical equality.
use artifact_proof_lab.Base.{
  ℕ, zero, suc, ◌+◌, ◌%◌, ◌≡◌, ◌≢◌, refl, ap, sym, ◌∙◌, ◌↔◌, ◌⊎◌, inl, inr, Bool, false, ◌||◌, List,
  [], ◌∷◌, ◌++◌, append-nil, All, reverse_onto, Bool-cases, arith,
}
use artifact_proof_lab.Base.Int.{ℤ, pos, pos_part, neg_part, eq_of_parts, succ, succ_parts}
use artifact_proof_lab.Json.{Decimal}
use artifact_proof_lab.Checks.Decimal.{backwards, strip, significant, canonical_decimal}
use artifact_proof_lab.Checks.DecimalLaws.{
  shift, shift-add, shift_zero, shift-injective, spelled, value, NoLeadingZero,
  NoLeadingZero-spelled, spelled-injective, IsDigit, IsTuple, SameNumber,
}

-- What the loop leaves of a number that is not zero.
record Stripped (ds : List ℕ) (e : ℤ) (out : List ℕ × ℤ) : Type 0 where
  zeros : ℕ
  power : spelled ds ≡ shift zeros (spelled out.0)
  exponent : pos_part out.1 + neg_part e ≡ pos_part e + zeros + neg_part out.1
  last : spelled out.0 % 10 ≢ 0
  digits : All IsDigit out.0
  lead : NoLeadingZero out.0

strip-Stripped :
    (ds : List ℕ) (e : ℤ) → All IsDigit ds → NoLeadingZero ds → Stripped ds e (strip ds e)
unfolding strip spelled shift
strip-Stripped [] e d n = absurd n
strip-Stripped (zero ∷ []) e d n = absurd (n refl)
strip-Stripped (zero ∷ c ∷ ds) e d n =
    let rest = strip-Stripped (c ∷ ds) (succ e) d.1 n in
    record {
      zeros = suc rest.zeros;
      power = omega (arith, rest.power);
      exponent = omega (arith, rest.exponent, succ_parts e);
      last = rest.last;
      digits = rest.digits;
      lead = rest.lead;
    }
strip-Stripped (suc d ∷ ds) e h n = record {
  zeros = 0;
  power = refl;
  exponent = omega arith;
  last = omega arith;
  digits = h;
  lead = n;
}

significant-spelled : (ds : List ℕ) → (significant ds ≡ false) ↔ (spelled ds ≡ 0)
unfolding spelled
significant-spelled [] = (λ _. refl, λ _. refl)
significant-spelled (zero ∷ ds) =
    let (there, back) = significant-spelled ds in
    (λ h. omega (arith, there h), λ e. back (omega arith))
significant-spelled (suc d ∷ ds) = (λ h. absurd (ground arith), λ e. absurd (omega arith))

significant-reverse :
    (ds es : List ℕ) → significant (reverse_onto ds es) ≡ (significant ds || significant es)
unfolding reverse_onto
significant-reverse [] es = refl
significant-reverse (d ∷ ds) es = ground (arith, significant-reverse ds (d ∷ es))

reverse-reverse :
    (xs ys zs : List ℕ) → reverse_onto (reverse_onto xs ys) zs ≡ reverse_onto ys (xs ++ zs)
unfolding reverse_onto
reverse-reverse [] ys zs = refl
reverse-reverse (x ∷ xs) ys zs = reverse-reverse xs (x ∷ ys) zs

backwards-backwards : (xs : List ℕ) → backwards (backwards xs) ≡ xs
unfolding reverse_onto
backwards-backwards xs = reverse-reverse xs [] [] ∙ append-nil xs

abbrev written : ℕ → List ℕ × ℤ → Decimal
written sign (rest, exponent) = record { sign = sign; digits = backwards rest; exponent = exponent }

abbrev zero_decimal : Decimal
zero_decimal = record { sign = 0; digits = 0 ∷ []; exponent = pos 0 }

-- The two outcomes of the function.
record Reduced (d : Decimal) : Type 0 where
  nonzero : value d ≢ 0
  out : List ℕ × ℤ
  stripped : Stripped (backwards d.digits) d.exponent out
  result : canonical_decimal d ≡ written d.sign out

canonical_cases :
    (d : Decimal) → IsTuple d → ((value d ≡ 0) × (canonical_decimal d ≡ zero_decimal)) ⊎ Reduced d
unfolding canonical_decimal
canonical_cases d t = elim (Bool-cases (significant d.digits)) [
  | inr none ↦ inl ((significant-spelled (backwards d.digits)).0 (backwards_false none), rw none)
  | inl some ↦
      let nonzero : value d ≢ 0 = λ e. cc (
        some,
        significant-reverse d.digits [],
        (significant-spelled (backwards d.digits)).1 e,
        or_false_right (significant d.digits),
      ) in
      inr (record {
        nonzero = nonzero;
        out = strip (backwards d.digits) d.exponent;
        stripped = strip-Stripped (backwards d.digits) d.exponent t.digits (t.lead nonzero);
        result = rw some;
      })
]
  where
    or_false_right : (b : Bool) → (b || false) ≡ b
    or_false_right b = ground arith

    backwards_false : significant d.digits ≡ false → significant (backwards d.digits) ≡ false
    backwards_false h = significant-reverse d.digits [] ∙ or_false_right _ ∙ h

-- A reduced number is written with the digits that are left, and these fix it.
written-eq :
    (a b : Decimal) (ra : Reduced a) (rb : Reduced b)
    → written a.sign ra.out ≡ written b.sign rb.out
    → (a.sign ≡ b.sign) × (ra.out.0 ≡ rb.out.0) × (ra.out.1 ≡ rb.out.1)
written-eq a b ra rb e = (
  ap (λ d. d.sign) e,
  sym (backwards-backwards ra.out.0)
      ∙ ap (λ (d : Decimal). backwards d.digits) e
      ∙ backwards-backwards rb.out.0,
  ap (λ d. d.exponent) e,
)

-- The shift that takes a reduced number back to its digits at a common exponent.
common :
    (a : Decimal) (r : Reduced a) (k : ℕ)
    → shift k (value a) ≡ shift (k + r.stripped.zeros) (spelled r.out.0)
common a r k = ap (shift k) r.stripped.power ∙ sym (shift-add k r.stripped.zeros (spelled r.out.0))

Reduced-same :
    (a b : Decimal) (ra : Reduced a) (rb : Reduced b)
    → written a.sign ra.out ≡ written b.sign rb.out
    → SameNumber a b
Reduced-same a b ra rb e =
    let (signs, digits, exponents) = written-eq a b ra rb e in
    let ka = pos_part a.exponent + neg_part b.exponent in
    let kb = pos_part b.exponent + neg_part a.exponent in
    let parts : pos_part ra.out.1 + neg_part rb.out.1 ≡ pos_part rb.out.1 + neg_part ra.out.1 =
      ap (λ z. pos_part z + neg_part rb.out.1) exponents
      ∙ ap (λ z. pos_part rb.out.1 + neg_part z) (sym exponents) in
    let level : ka + ra.stripped.zeros ≡ kb + rb.stripped.zeros =
      omega (arith, ra.stripped.exponent, rb.stripped.exponent) in
    inr (
      ra.nonzero,
      signs,
      common a ra ka
          ∙ ap (λ k. shift k (spelled ra.out.0)) level
          ∙ ap (λ ds. shift (kb + rb.stripped.zeros) (spelled ds)) digits
          ∙ sym (common b rb kb),
    )

same-Reduced :
    (a b : Decimal) (ra : Reduced a) (rb : Reduced b)
    → SameNumber a b
    → written a.sign ra.out ≡ written b.sign rb.out
same-Reduced a b ra rb (inl (za, _)) = absurd (ra.nonzero za)
same-Reduced a b ra rb (inr (_, signs, e)) =
    let ka = pos_part a.exponent + neg_part b.exponent in
    let kb = pos_part b.exponent + neg_part a.exponent in
    let (level, numbers) =
      shift-injective (ka + ra.stripped.zeros) (kb + rb.stripped.zeros) (spelled ra.out.0)
        (spelled rb.out.0) ra.stripped.last rb.stripped.last
        (sym (common a ra ka) ∙ e ∙ common b rb kb) in
    let digits =
      spelled-injective ra.out.0 rb.out.0 ra.stripped.digits rb.stripped.digits ra.stripped.lead
        rb.stripped.lead numbers in
    let exponents : ra.out.1 ≡ rb.out.1 =
      eq_of_parts ra.out.1 rb.out.1 (omega (arith, ra.stripped.exponent, rb.stripped.exponent)) in
    cc (signs, digits, exponents)

-- A reduced number is not written as zero is.
written-ne-zero : (a : Decimal) (r : Reduced a) → written a.sign r.out ≢ zero_decimal
unfolding spelled reverse_onto
written-ne-zero a r e =
    let only : r.out.0 ≡ 0 ∷ [] =
      sym (backwards-backwards r.out.0)
      ∙ ap (λ (d : Decimal). backwards d.digits) e
      ∙ backwards-backwards (0 ∷ []) in
    NoLeadingZero-spelled r.out.0 r.stripped.lead (ap spelled only ∙ omega arith)

shift_of_zero : (k : ℕ) → shift k 0 ≡ 0
unfolding shift
shift_of_zero zero = refl
shift_of_zero (suc k) = omega (arith, shift_of_zero k)

-- Two decimals, as `Decimal.as_tuple` returns them, have one canonical form exactly when they are
-- the same number, whatever their exponents and trailing zeros.
pub canonical_decimal_iff :
    (a b : Decimal)
    → IsTuple a
    → IsTuple b
    → (canonical_decimal a ≡ canonical_decimal b) ↔ SameNumber a b
canonical_decimal_iff a b ta tb = elim (canonical_cases a ta) [
  | inl (za, ea) ↦ elim (canonical_cases b tb) [
    | inl (zb, eb) ↦ (λ _. inl (za, zb), λ _. ea ∙ sym eb)
    | inr rb ↦ (
      λ e. absurd (written-ne-zero b rb (sym rb.result ∙ sym e ∙ ea)),
      elim [ inl (_, zb) ↦ absurd (rb.nonzero zb) | inr (na, _, _) ↦ absurd (na za) ],
    )
  ]
  | inr ra ↦ elim (canonical_cases b tb) [
    | inl (zb, eb) ↦ (
      λ e. absurd (written-ne-zero a ra (sym ra.result ∙ e ∙ eb)),
      elim [
        | inl (za, _) ↦ absurd (ra.nonzero za)
        | inr (na, _, e) ↦
            absurd (na (shift_zero _ (value a) (e ∙ ap (shift _) zb ∙ shift_of_zero _)))
      ],
    )
    | inr rb ↦ (
      λ e. Reduced-same a b ra rb (sym ra.result ∙ e ∙ rb.result),
      λ h. ra.result ∙ same-Reduced a b ra rb h ∙ sym rb.result,
    )
  ]
]
