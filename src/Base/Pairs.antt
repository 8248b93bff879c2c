-- ===== src/Base/Pairs.antt =====
-- Statements on every two members of a list, the earlier one first, and Python's `set(xs)` as far
-- as its length goes.
use Prim.Native.Nat.{◌≤◌}
use mathlib.Core.Path.{◌≡◌, refl}
use mathlib.Core.Logic.{◌≢◌, ◌↔◌, inl, inr}
use mathlib.Core.Bool.{Bool, true, false}
use mathlib.Core.List.{List, [], ◌∷◌, ◌++◌, map}
use native.Mathlib.Omega.{arith}
use artifact_proof_lab.Base.Tests.{Bool-cases, if◌then◌else◌, eqb}
use artifact_proof_lab.Base.Lists.{length, any, All, All-map}

module _ {ℓ κ} {A : Type ℓ} where
  abbrev pub Pairwise : (A → A → Type κ) → List A → Type κ
  Pairwise R [] = Unit
  Pairwise R (x ∷ xs) = All (R x) xs × Pairwise R xs

  pub Pairwise-map :
      {R : A → A → Type κ} {T : A → A → Type κ} (xs : List A)
      → ((x y : A) → R x y → T x y)
      → Pairwise R xs
      → Pairwise T xs
  Pairwise-map [] f h = tt
  Pairwise-map (x ∷ xs) f h = (All-map xs (f x) h.0, Pairwise-map xs f h.1)

module _ {ℓ κ} {A : Type ℓ} {B : Type ℓ} where
  -- A statement on the images is a statement on the members.
  pub All-image :
      (f : A → B) (P : B → Type κ) (xs : List A) → All P (map f xs) ↔ All (λ x. P (f x)) xs
  All-image f P [] = (λ h. h, λ h. h)
  All-image f P (x ∷ xs) =
      let (there, back) = All-image f P xs in (λ h. (h.0, there h.1), λ h. (h.0, back h.1))

  pub Pairwise-image :
      (f : A → B) (R : B → B → Type κ) (xs : List A)
      → Pairwise R (map f xs) ↔ Pairwise (λ x y. R (f x) (f y)) xs
  Pairwise-image f R [] = (λ h. h, λ h. h)
  Pairwise-image f R (x ∷ xs) =
      let (there, back) = Pairwise-image f R xs in
      let (out, into) = All-image f (R (f x)) xs in
      (λ h. (out h.0, there h.1), λ h. (into h.0, back h.1))

module _ {ℓ κ} {A : Type ℓ} where
  pub All-both : (P Q : A → Type κ) (xs : List A) → All P xs → All Q xs → All (λ x. P x × Q x) xs
  All-both P Q [] hp hq = tt
  All-both P Q (x ∷ xs) hp hq = ((hp.0, hq.0), All-both P Q xs hp.1 hq.1)

  pub Pairwise-both :
      (R T : A → A → Type κ) (xs : List A)
      → Pairwise R xs
      → Pairwise T xs
      → Pairwise (λ x y. R x y × T x y) xs
  Pairwise-both R T [] hr ht = tt
  Pairwise-both R T (x ∷ xs) hr ht =
      (All-both (R x) (T x) xs hr.0 ht.0, Pairwise-both R T xs hr.1 ht.1)

module _ {A : Type 0} (P : A → Type 0) where
  pub All-of : ((x : A) → P x) → (xs : List A) → All P xs
  All-of h [] = tt
  All-of h (x ∷ xs) = (h x, All-of h xs)

  pub All-snoc : (xs : List A) (y : A) → All P (xs ++ y ∷ []) ↔ (All P xs × P y)
  All-snoc [] y = (λ h. (tt, h.0), λ h. (h.1, tt))
  All-snoc (x ∷ xs) y =
      let (there, back) = All-snoc xs y in
      (λ h. ((h.0, (there h.1).0), (there h.1).1), λ h. (h.0.0, back (h.0.1, h.1)))

module _ {A : Type 0} (same : A → A → Bool) where
  -- set(xs): the last occurrence of each member
  unfoldable pub set_of : List A → List A
  set_of [] = []
  set_of (x ∷ xs) = let rest = set_of xs in if any (λ y. same x y) xs then rest else x ∷ rest

  -- len(xs) == len(set(xs))
  unfoldable pub is_set : List A → Bool
  unfolding set_of
  is_set xs = eqb (length xs) (length (set_of xs))

  length-set_of : (xs : List A) → length (set_of xs) ≤ length xs
  unfolding set_of
  length-set_of [] = omega arith
  length-set_of (x ∷ xs) = ground (arith, length-set_of xs)

  module _ (agrees : (x y : A) → (same x y ≡ true) ↔ (x ≡ y)) where
    any-All : (x : A) (xs : List A) → (any (λ y. same x y) xs ≡ false) ↔ All (λ y. x ≢ y) xs
    any-All x [] = (λ h. tt, λ h. refl)
    any-All x (y ∷ ys) =
        let (there, back) = any-All x ys in
        let (out, into) = agrees x y in
        (
          λ h. (λ e. cc (into e, h), there (ground arith)),
          λ h. elim (Bool-cases (same x y)) [
            | inl e ↦ absurd (h.0 (out e))
            | inr e ↦ rw (e, back h.1) refl
          ],
        )

    -- A list is as long as its set exactly when no member stands in it twice.
    pub is_set_iff : (xs : List A) → (is_set xs ≡ true) ↔ Pairwise (λ x y. x ≢ y) xs
    unfolding is_set set_of
    is_set_iff [] = (λ h. tt, λ h. refl)
    is_set_iff (x ∷ xs) =
        let (there, back) = is_set_iff xs in
        let (out, into) = any-All x xs in
        (
          λ h. elim (Bool-cases (any (λ y. same x y) xs)) [
            | inl e ↦ absurd (ground (arith, length-set_of xs))
            | inr e ↦ (out e, there (ground arith))
          ],
          λ h. rw (into h.0) (ground (arith, back h.1)),
        )

module _ {A S : Type 0} (Fits : A → S → Type 0) (step : A → S → S) where
  -- Each member fits the state that the members before it have left.
  abbrev pub Accepts : List A → S → Type 0
  Accepts [] s = Unit
  Accepts (x ∷ xs) s = Fits x s × Accepts xs (step x s)

  -- Where a step only adds the demand `R` on later members, the demands are those of the first
  -- state and `R` on every two members.
  module _ (R : A → A → Type 0)
      (adds : (later x : A) (s : S)
        → Fits x s
        → Fits later (step x s) ↔ (Fits later s × R x later)) where
    All-step :
        (x : A) (s : S) (xs : List A)
        → Fits x s
        → All (λ y. Fits y (step x s)) xs ↔ (All (λ y. Fits y s) xs × All (R x) xs)
    All-step x s [] fits = (λ h. (tt, tt), λ h. tt)
    All-step x s (y ∷ ys) fits =
        let (there, back) = All-step x s ys fits in
        let (out, into) = adds y x s fits in
        (
          λ h. (((out h.0).0, (there h.1).0), ((out h.0).1, (there h.1).1)),
          λ h. (into (h.0.0, h.1.0), back (h.0.1, h.1.1)),
        )

    pub Accepts-iff :
        (xs : List A) (s : S) → Accepts xs s ↔ (All (λ x. Fits x s) xs × Pairwise R xs)
    Accepts-iff [] s = (λ h. (tt, tt), λ h. tt)
    Accepts-iff (x ∷ xs) s =
        let (there, back) = Accepts-iff xs (step x s) in
        (
          λ h.
              let split = (All-step x s xs h.0).0 (there h.1).0 in
              ((h.0, split.0), (split.1, (there h.1).1)),
          λ h. (h.0.0, back ((All-step x s xs h.0.0).1 (h.0.1, h.1.0), h.1.1)),
        )

module _ {A : Type 0} (R : A → A → Type 0) where
  pub Pairwise-snoc :
      (xs : List A) (y : A) → Pairwise R (xs ++ y ∷ []) ↔ (Pairwise R xs × All (λ x. R x y) xs)
  Pairwise-snoc [] y = (λ h. (tt, tt), λ h. (tt, tt))
  Pairwise-snoc (x ∷ xs) y =
      let (there, back) = Pairwise-snoc xs y in
      let (out, into) = All-snoc (R x) xs y in
      (
        λ h. (((out h.0).0, (there h.1).0), ((out h.0).1, (there h.1).1)),
        λ h. (into (h.0.0, h.1.0), back (h.0.1, h.1.1)),
      )
