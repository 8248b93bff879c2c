-- ===== src/Checks/PointerSteps.antt =====
-- Where the reference tokens of a JSON Pointer lead, told apart from `_resolve_json_pointer` of
-- src/artifact_proof/checks.py, and one step of its loop.
use Prim.Native.Char.{Char, code}
use artifact_proof_lab.Base.{
  ℕ, String, subst, zero, suc, ◌+◌, ◌*◌, ◌≡◌, ◌≢◌, refl, ap, sym, ◌∙◌, ◌↔◌, Bool, true, false, ◌&&◌,
  Option, none, some, some-eq, List, [], ◌∷◌, ◌++◌, length, all, All, and_true, reverse_onto, arith,
}
use artifact_proof_lab.Base.Text.{of_chars}
use artifact_proof_lab.Base.Outcome.{
  Exception, value_error, ok, raise, require, ok-injective, raise-ne-ok, >>=-eq-ok, ◌>>=◌,
}
use artifact_proof_lab.Json.{Json, Fields, Items, null, bool, num, str, arr, obj, get, elements}
use artifact_proof_lab.Platform.{Platform}
use artifact_proof_lab.Checks.Decimal.{backwards}
use artifact_proof_lab.Checks.DecimalLaws.{spelled}
use artifact_proof_lab.Checks.Pointer.{valid_index, index_from, nth, found, descend}

-- The element has this many elements before it.
pub record Stands {N : Type 0} (n : ℕ) (v : Json N) (vs : List (Json N)) : Type 0 where
  pub before : List (Json N)
  pub after : List (Json N)
  pub whole : vs ≡ before ++ v ∷ after
  pub place : length before ≡ n

module _ (platform : Platform) where
  -- The digits that `int` reads in the characters.
  pub data Reads : List Char → List ℕ → Type 0 where
    read_none : Reads [] []
    read_one :
        (c : Char) (d : ℕ) {cs : List Char} {ds : List ℕ}
        → platform.decimal_digit c ≡ some d
        → Reads cs ds
        → Reads (c ∷ cs) (d ∷ ds)

  -- No empty token, no "-", and no leading zero before other digits.
  abbrev pub IsPlain : List Char → Type 0
  IsPlain [] = ⊥
  IsPlain (c ∷ []) = code c ≢ b'-'
  IsPlain (c ∷ d ∷ cs) = code c ≢ b'0'

  -- The token is the decimal numeral of the index.
  pub record IsIndex (token : List Char) (n : ℕ) : Type 0 where
    pub digits : All (λ c. platform.is_digit c ≡ true) token
    pub plain : IsPlain token
    pub read : List ℕ
    pub reads : Reads token read
    pub value : n ≡ spelled (backwards read)

  -- One reference token leads to the member of that name, or to the element at that index.
  pub data Step {N : Type 0} : Json N → List Char → Json N → Type 0 where
    member :
        {fs : Fields N} {t : List Char} {v : Json N}
        → get (of_chars t) fs ≡ some v
        → Step (obj fs) t v
    element :
        {vs : Items N} {t : List Char} {v : Json N} (n : ℕ)
        → IsIndex t n
        → Stands n v (elements vs)
        → Step (arr vs) t v

  -- The reference tokens lead from the one value to the other.
  pub data Leads {N : Type 0} : Json N → List (List Char) → Json N → Type 0 where
    arrived : {v : Json N} → Leads v [] v
    onward :
        {u v w : Json N} {t : List Char} {ts : List (List Char)}
        → Step u t v
        → Leads v ts w
        → Leads u (t ∷ ts) w

module _ {N : Type 0} where
  nth-Stands : (vs : List (Json N)) (n : ℕ) (v : Json N) → nth vs n ≡ some v → Stands n v vs
  unfolding nth
  nth-Stands [] n v h = cc
  nth-Stands (u ∷ vs) zero v h = record {
    before = [];
    after = vs;
    whole = ap (λ w. w ∷ vs) (some-eq h);
    place = refl;
  }
  nth-Stands (u ∷ vs) (suc n) v h =
      let at = nth-Stands vs n v h in
      record {
        before = u ∷ at.before;
        after = at.after;
        whole = ap (λ ws. u ∷ ws) at.whole;
        place = omega (arith, at.place);
      }

  nth-length :
      (before after : List (Json N)) (v : Json N)
      → nth (before ++ v ∷ after) (length before) ≡ some v
  unfolding nth
  nth-length [] after v = refl
  nth-length (u ∷ before) after v = nth-length before after v

  nth_iff : (vs : List (Json N)) (n : ℕ) (v : Json N) → (nth vs n ≡ some v) ↔ Stands n v vs
  nth_iff vs n v = (
    nth-Stands vs n v,
    λ at.
        ap (λ ws. nth ws n) at.whole
        ∙ ap (nth (at.before ++ v ∷ at.after)) (sym at.place)
        ∙ nth-length at.before at.after v,
  )

  found-ok : (o : Option (Json N)) (m : String) (v : Json N) → found o m ≡ ok v → o ≡ some v
  found-ok none m v h = cc
  found-ok (some u) m v h = ap some (ok-injective h)

both_true : (a b : Bool) → a ≡ true → b ≡ true → (a && b) ≡ true
both_true a b h k = ground arith

require-ok : (b : Bool) (e : Exception) (u : Unit {0}) → require b e ≡ ok u → b ≡ true
unfolding require
require-ok true e u h = refl
require-ok false e u h = absurd (raise-ne-ok h)

module _ (platform : Platform) where
  all-digits :
      (cs : List Char)
      → (all platform.is_digit cs ≡ true) ↔ All (λ c. platform.is_digit c ≡ true) cs
  all-digits [] = (λ h. tt, λ h. refl)
  all-digits (c ∷ cs) =
      let (there, back) = all-digits cs in
      (
        λ h. let (one, more) = and_true (platform.is_digit c) _ h in (one, there more),
        λ (one, more). cc (one, back more),
      )

  valid_index_iff :
      (token : List Char)
      → (valid_index platform token ≡ true)
        ↔ (All (λ c. platform.is_digit c ≡ true) token × IsPlain platform token)
  unfolding valid_index
  valid_index_iff [] = (λ h. cc, λ h. absurd h.1)
  valid_index_iff (c ∷ []) = (
    λ h. let (one, plain) = and_true (platform.is_digit c) _ h in ((one, tt), ground arith),
    λ ((one, _), plain). ground arith,
  )
  valid_index_iff (c ∷ d ∷ cs) =
      let (there, back) = all-digits (c ∷ d ∷ cs) in
      (
        λ h.
            let (digits, plain) = and_true (all platform.is_digit (c ∷ d ∷ cs)) _ h in
            (there digits, ground arith),
        λ (digits, plain).
            both_true (all platform.is_digit (c ∷ d ∷ cs)) _ (back digits) (ground arith),
      )

  index_from-Reads :
      (token : List Char) (past : List ℕ) (n : ℕ)
      → index_from platform (spelled past) token ≡ ok n
      → (ds : List ℕ) × Reads platform token ds × (n ≡ spelled (reverse_onto ds past))
  unfolding index_from spelled reverse_onto
  index_from-Reads [] past n h = ([], read_none, sym (ok-injective h))
  index_from-Reads (c ∷ cs) past n h =
      go (λ d same. index_from-Reads cs (d ∷ past) n same) (platform.decimal_digit c) refl h
    where
      go :
          (rest : (d : ℕ)
            → index_from platform (spelled (d ∷ past)) cs ≡ ok n
            → (ds : List ℕ) × Reads platform cs ds × (n ≡ spelled (reverse_onto ds (d ∷ past))))
          (digit : Option ℕ)
          → platform.decimal_digit c ≡ digit
          → elim digit [
            | none ↦ raise (value_error "invalid literal for int()")
            | some d ↦ index_from platform (10 * spelled past + d) cs
          ]
            ≡ ok n
          → (ds : List ℕ) × Reads platform (c ∷ cs) ds × (n ≡ spelled (reverse_onto ds past))
      go rest none e h = absurd (raise-ne-ok h)
      go rest (some d) e h =
          let same : 10 * spelled past + d ≡ spelled (d ∷ past) = omega arith in
          let (ds, reads, value) = rest d (subst (λ k. index_from platform k cs ≡ ok n) same h) in
          (d ∷ ds, read_one c d e reads, value)

  index_from-spelled :
      (token : List Char) (ds past : List ℕ)
      → Reads platform token ds
      → index_from platform (spelled past) token ≡ ok (spelled (reverse_onto ds past))
  unfolding index_from spelled reverse_onto
  index_from-spelled [] [] past read_none = refl
  index_from-spelled [] (d ∷ ds) past reads = elim reads [ ]
  index_from-spelled (c ∷ cs) [] past reads = elim reads [ ]
  index_from-spelled (c ∷ cs) (d ∷ ds) past (read_one _ _ e reads) =
      let same : 10 * spelled past + d ≡ spelled (d ∷ past) = omega arith in
      rw (e, index_from)
        (ap (λ k. index_from platform k cs) same ∙ index_from-spelled cs ds (d ∷ past) reads)

  module _ {N : Type 0} where
    descend-Step :
        (u : Json N) (t : List Char) (v : Json N)
        → descend platform u t ≡ ok v
        → Step platform u t v
    unfolding descend spelled
    descend-Step (obj fs) t v h = member (found-ok (get (of_chars t) fs) _ v h)
    descend-Step (arr vs) t v h =
        let (_, valid, h1) = >>=-eq-ok (require (valid_index platform t) _) _ h in
        let (n, index, h2) = >>=-eq-ok (index_from platform 0 t) _ h1 in
        let (digits, plain) =
          (valid_index_iff t).0 (require-ok (valid_index platform t) _ _ valid) in
        let (ds, reads, value) = index_from-Reads t [] n index in
        element n
          (record { digits = digits; plain = plain; read = ds; reads = reads; value = value })
          (nth-Stands (elements vs) n v (found-ok (nth (elements vs) n) _ v h2))
    descend-Step null t v h = absurd (raise-ne-ok h)
    descend-Step (bool b) t v h = absurd (raise-ne-ok h)
    descend-Step (num k) t v h = absurd (raise-ne-ok h)
    descend-Step (str s) t v h = absurd (raise-ne-ok h)

    Step-descend :
        (u : Json N) (t : List Char) (v : Json N)
        → Step platform u t v
        → descend platform u t ≡ ok v
    unfolding descend ◌>>=◌ spelled
    Step-descend (obj fs) t v (member here) = rw here refl
    Step-descend (arr vs) t v (element n index at) =
        let valid = (valid_index_iff t).1 (index.digits, index.plain) in
        let numbered : index_from platform 0 t ≡ ok n =
          index_from-spelled t index.read [] index.reads ∙ ap ok (sym index.value) in
        rw (valid, numbered, (nth_iff (elements vs) n v).1 at) refl
    Step-descend null t v step = elim step [ ]
    Step-descend (bool b) t v step = elim step [ ]
    Step-descend (num k) t v step = elim step [ ]
    Step-descend (str s) t v step = elim step [ ]

    -- One step of the loop.
    pub descend_iff :
        (u : Json N) (t : List Char) (v : Json N)
        → (descend platform u t ≡ ok v) ↔ Step platform u t v
    descend_iff u t v = (descend-Step u t v, Step-descend u t v)
