-- ===== src/Base/Sort.antt =====
-- The order of the integers as a test and as a statement, and `sorted(xs)` on them.
use Prim.Native.Nat.{◌+◌, ◌≤◌, ◌<◌}
use mathlib.Core.Path.{◌≡◌, refl, sym}
use mathlib.Core.Logic.{◌≢◌, ◌↔◌, inl, inr}
use mathlib.Core.Bool.{Bool, true, false, ◌&&◌}
use mathlib.Core.List.{List, [], ◌∷◌}
use native.Mathlib.Omega.{arith}
use artifact_proof_lab.Base.Tests.{Bool-cases, if◌then◌else◌, eqb, leb}
use artifact_proof_lab.Base.Lists.{All, All-map}
use artifact_proof_lab.Base.Pairs.{Pairwise, Pairwise-map, Pairwise-both, is_set, is_set_iff}
use artifact_proof_lab.Base.Int.{ℤ, pos, negsuc, pos_part, neg_part, eq_of_parts}

infix 4 ◌≤ℤ◌ ◌<ℤ◌
abbrev pub ◌≤ℤ◌ : ℤ → ℤ → Type 0
a ≤ℤ b = pos_part a + neg_part b ≤ pos_part b + neg_part a

abbrev pub ◌<ℤ◌ : ℤ → ℤ → Type 0
a <ℤ b = pos_part a + neg_part b < pos_part b + neg_part a

-- a <= b
unfoldable pub at_most : ℤ → ℤ → Bool
at_most (pos m) (pos n) = leb m n
at_most (pos m) (negsuc n) = false
at_most (negsuc m) (pos n) = true
at_most (negsuc m) (negsuc n) = leb n m

-- a == b
unfoldable pub same_int : ℤ → ℤ → Bool
same_int (pos m) (pos n) = eqb m n
same_int (pos m) (negsuc n) = false
same_int (negsuc m) (pos n) = false
same_int (negsuc m) (negsuc n) = eqb m n

pub at_most_iff : (a b : ℤ) → (at_most a b ≡ true) ↔ (a ≤ℤ b)
unfolding at_most
at_most_iff (pos m) (pos n) = ground arith
at_most_iff (pos m) (negsuc n) = ground arith
at_most_iff (negsuc m) (pos n) = ground arith
at_most_iff (negsuc m) (negsuc n) = ground arith

same_int_refl : (a : ℤ) → same_int a a ≡ true
unfolding same_int
same_int_refl (pos m) = ground arith
same_int_refl (negsuc m) = ground arith

same_int-parts : (a b : ℤ) → same_int a b ≡ true → pos_part a + neg_part b ≡ pos_part b + neg_part a
unfolding same_int
same_int-parts (pos m) (pos n) h = ground arith
same_int-parts (pos m) (negsuc n) h = cc
same_int-parts (negsuc m) (pos n) h = cc
same_int-parts (negsuc m) (negsuc n) h = ground arith

pub same_int_iff : (a b : ℤ) → (same_int a b ≡ true) ↔ (a ≡ b)
same_int_iff a b = (λ h. eq_of_parts a b (same_int-parts a b h), λ e. rw e (same_int_refl b))

unfoldable pub same_ints : List ℤ → List ℤ → Bool
same_ints [] [] = true
same_ints [] (y ∷ ys) = false
same_ints (x ∷ xs) [] = false
same_ints (x ∷ xs) (y ∷ ys) = same_int x y && same_ints xs ys

same_ints-eq : (xs ys : List ℤ) → same_ints xs ys ≡ true → xs ≡ ys
unfolding same_ints
same_ints-eq [] [] h = refl
same_ints-eq [] (y ∷ ys) h = cc
same_ints-eq (x ∷ xs) [] h = cc
same_ints-eq (x ∷ xs) (y ∷ ys) h = ground (arith, same_int_iff x y, same_ints-eq xs ys)

same_ints_refl : (xs : List ℤ) → same_ints xs xs ≡ true
unfolding same_ints
same_ints_refl [] = refl
same_ints_refl (x ∷ xs) = rw (same_int_refl x) (same_ints_refl xs)

pub same_ints_iff : (xs ys : List ℤ) → (same_ints xs ys ≡ true) ↔ (xs ≡ ys)
same_ints_iff xs ys = (same_ints-eq xs ys, λ e. rw e (same_ints_refl ys))

insert_int : ℤ → List ℤ → List ℤ
insert_int x [] = x ∷ []
insert_int x (y ∷ ys) = let rest = insert_int x ys in if at_most x y then x ∷ y ∷ ys else y ∷ rest

-- sorted(xs)
unfoldable pub sorted_ints : List ℤ → List ℤ
unfolding insert_int
sorted_ints [] = []
sorted_ints (x ∷ xs) = insert_int x (sorted_ints xs)

-- xs == sorted(xs) and no member twice
unfoldable pub is_increasing : List ℤ → Bool
unfolding same_ints sorted_ints is_set
is_increasing xs = same_ints xs (sorted_ints xs) && is_set same_int xs

insert_int-All : (P : ℤ → Type 0) (x : ℤ) (xs : List ℤ) → P x → All P xs → All P (insert_int x xs)
unfolding insert_int
insert_int-All P x [] hx h = (hx, tt)
insert_int-All P x (y ∷ ys) hx h = elim (Bool-cases (at_most x y)) [
  | inl e ↦ rw e (hx, h)
  | inr e ↦ rw e (h.0, insert_int-All P x ys hx h.1)
]

insert_int-Pairwise : (x : ℤ) (xs : List ℤ) → Pairwise ◌≤ℤ◌ xs → Pairwise ◌≤ℤ◌ (insert_int x xs)
unfolding insert_int
insert_int-Pairwise x [] h = (tt, tt)
insert_int-Pairwise x (y ∷ ys) h =
    let (out, into) = at_most_iff x y in
    elim (Bool-cases (at_most x y)) [
      | inl e ↦ let first = out e in rw e ((first, All-map ys (λ z later. omega arith) h.0), h)
      | inr e ↦
          let after : y ≤ℤ x = ground arith in
          rw e (insert_int-All (λ z. y ≤ℤ z) x ys after h.0, insert_int-Pairwise x ys h.1)
    ]

sorted_ints-Pairwise : (xs : List ℤ) → Pairwise ◌≤ℤ◌ (sorted_ints xs)
unfolding sorted_ints
sorted_ints-Pairwise [] = tt
sorted_ints-Pairwise (x ∷ xs) = insert_int-Pairwise x (sorted_ints xs) (sorted_ints-Pairwise xs)

insert_int-first : (x : ℤ) (xs : List ℤ) → All (λ y. x ≤ℤ y) xs → insert_int x xs ≡ x ∷ xs
unfolding insert_int
insert_int-first x [] h = refl
insert_int-first x (y ∷ ys) h = rw ((at_most_iff x y).1 h.0) refl

Pairwise-sorted_ints : (xs : List ℤ) → Pairwise ◌≤ℤ◌ xs → sorted_ints xs ≡ xs
unfolding sorted_ints
Pairwise-sorted_ints [] h = refl
Pairwise-sorted_ints (x ∷ xs) h = rw (Pairwise-sorted_ints xs h.1) (insert_int-first x xs h.0)

less : (x y : ℤ) → (x ≤ℤ y) × (x ≢ y) → x <ℤ y
less x y (most, other) = ground (arith, eq_of_parts x y)

pub is_increasing_iff : (xs : List ℤ) → (is_increasing xs ≡ true) ↔ Pairwise ◌<ℤ◌ xs
unfolding is_increasing
is_increasing_iff xs =
    let (out, into) = same_ints_iff xs (sorted_ints xs) in
    let (apart, back) = is_set_iff same_int same_int_iff xs in
    (
      λ h. Pairwise-map xs less (
          Pairwise-both ◌≤ℤ◌ ◌≢◌ xs (rw (out (ground arith)) (sorted_ints-Pairwise xs))
            (apart (ground arith))),
      λ h.
          rw
            (
              into (sym (Pairwise-sorted_ints xs (Pairwise-map xs (λ x y below. omega arith) h))),
              back (Pairwise-map xs (λ x y below e. let same : x ≡ y = e in ground arith) h),
            )
            refl,
    )
