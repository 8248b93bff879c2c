-- ===== src/Base/Names.antt =====
-- Lists of names: membership as a test and as a statement, and lists without repetition.
use Prim.Native.String.{String, compare}
use mathlib.Core.Path.{◌≡◌, sym}
use mathlib.Core.Logic.{◌↔◌, ◌⊎◌, inl, inr}
use mathlib.Core.Bool.{Bool, true, false, ◌||◌}
use mathlib.Core.List.{List, [], ◌∷◌}
use native.Mathlib.Omega.{arith}
use text.Mathlib.Text.{◌==◌, is_le}
use text.Mathlib.TextEquality.{eq_iff}
use artifact_proof_lab.Base.Tests.{Bool-cases, if◌then◌else◌}
use artifact_proof_lab.Base.Lists.{All, All-map}

-- a in xs
abbrev pub mem : String → List String → Bool
mem a [] = false
mem a (x ∷ xs) = x == a || mem a xs

abbrev pub Holds : String → List String → Type 0
Holds a [] = ⊥
Holds a (x ∷ xs) = (x ≡ a) ⊎ Holds a xs

abbrev pub Distinct : List String → Type 0
Distinct [] = Unit
Distinct (x ∷ xs) = (¬ Holds x xs) × Distinct xs

pub mem-Holds : (a : String) (xs : List String) → mem a xs ≡ true → Holds a xs
mem-Holds a [] h = cc
mem-Holds a (x ∷ xs) h = elim (Bool-cases (x == a)) [
  | inl same ↦ inl ((eq_iff x a).0 same)
  | inr other ↦ inr (mem-Holds a xs (ground arith))
]

pub Holds-mem : (a : String) (xs : List String) → Holds a xs → mem a xs ≡ true
Holds-mem a [] h = absurd h
Holds-mem a (x ∷ xs) (inl same) = ground (arith, eq_iff x a)
Holds-mem a (x ∷ xs) (inr later) = ground (arith, Holds-mem a xs later)

pub not-mem : (a : String) (xs : List String) → mem a xs ≡ false → ¬ Holds a xs
not-mem a xs h held = cc (Holds-mem a xs held)

pub not-Holds : (a : String) (xs : List String) → (¬ Holds a xs) → mem a xs ≡ false
not-Holds a xs h = elim (Bool-cases (mem a xs)) [
  | inl there ↦ absurd (h (mem-Holds a xs there))
  | inr absent ↦ absent
]

-- Names met later, none of which was met before.
pub fresh-apart :
    (k : String) (seen ks : List String)
    → All (λ j. ¬ Holds j (k ∷ seen)) ks
    → (¬ Holds k ks) × All (λ j. ¬ Holds j seen) ks
fresh-apart k seen ks h = (go ks h, All-map ks (λ j new held. new (inr held)) h)
  where
    go : (ls : List String) → All (λ j. ¬ Holds j (k ∷ seen)) ls → ¬ Holds k ls
    go [] h held = held
    go (l ∷ ls) h (inl same) = h.0 (inl (sym same))
    go (l ∷ ls) h (inr later) = go ls h.1 later

-- sorted(names): `compare` orders texts by code points, as Python does.
insert_name : String → List String → List String
insert_name x [] = x ∷ []
insert_name x (y ∷ ys) =
    let rest = insert_name x ys in if is_le (compare x y) then x ∷ y ∷ ys else y ∷ rest

unfoldable pub sorted : List String → List String
unfolding insert_name
sorted [] = []
sorted (x ∷ xs) = insert_name x (sorted xs)

-- Sorting keeps the names.
Holds-insert_name :
    (a x : String) (xs : List String) → Holds a (insert_name x xs) ↔ ((x ≡ a) ⊎ Holds a xs)
unfolding insert_name
Holds-insert_name a x [] = (λ h. h, λ h. h)
Holds-insert_name a x (y ∷ ys) =
    let (there, back) = Holds-insert_name a x ys in
    elim (Bool-cases (is_le (compare x y))) [
      | inl first ↦ rw first (λ h. h, λ h. h)
      | inr after ↦ rw after (
        elim [
          | inl here ↦ inr (inl here)
          | inr later ↦ elim (there later) [ inl new ↦ inl new | inr old ↦ inr (inr old) ]
        ],
        elim [
          | inl new ↦ inr (back (inl new))
          | inr (inl here) ↦ inl here
          | inr (inr old) ↦ inr (back (inr old))
        ],
      )
    ]

pub Holds-sorted : (a : String) (xs : List String) → Holds a (sorted xs) ↔ Holds a xs
unfolding sorted
Holds-sorted a [] = (λ h. h, λ h. h)
Holds-sorted a (x ∷ xs) =
    let (there, back) = Holds-sorted a xs in
    let (out, into) = Holds-insert_name a x (sorted xs) in
    (
      λ h. elim (out h) [ inl new ↦ inl new | inr old ↦ inr (there old) ],
      λ h. into (elim h [ inl new ↦ inl new | inr old ↦ inr (back old) ]),
    )
