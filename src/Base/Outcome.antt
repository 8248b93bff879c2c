-- ===== src/Base/Outcome.antt =====
-- Exceptions as values.
use Prim.Native.String.{String}
use mathlib.Core.Path.{◌≡◌, refl, ap, subst}
use mathlib.Core.Logic.{◌↔◌}
use mathlib.Core.Bool.{Bool, true, false}
use mathlib.Core.List.{List, [], ◌∷◌}
use artifact_proof_lab.Base.Tests.{if◌then◌else◌}
use artifact_proof_lab.Base.Lists.{All}

pub data Exception : Type 0 where
  -- ManifestError, SourceError; what `_value_binding` catches besides; BadZipFile, KeyError and
  -- RuntimeError
  manifest_error source_error value_error zip_error : String → Exception
  -- HostActionRejected of the gym
  action_rejected : String → Exception
  -- CurriculumError of the gym
  curriculum_error : String → Exception
  -- any other exception
  crash : String → Exception

pub data Result {ℓ} (A : Type ℓ) : Type ℓ where
  ok : A → Result A
  raise : Exception → Result A

-- `if not test: raise e`
unfoldable pub require : Bool → Exception → Result (Unit {0})
require true e = ok tt
require false e = raise e

-- `if test: raise e`
unfoldable pub reject : Bool → Exception → Result (Unit {0})
reject true e = raise e
reject false e = ok tt

infixl 5 ◌>>=◌ ◌>>◌
-- Shut, so that the rules below apply to a block; opening it opens `require` and `reject` too.
unfoldable pub ◌>>=◌ {ℓ κ} : {V : Type ℓ} {W : Type κ} → Result V → (V → Result W) → Result W
unfolding require reject
raise e >>= next = raise e
ok v >>= next = next v

-- A test, then the rest.
abbrev pub ◌>>◌ {κ} : {W : Type κ} → Result (Unit {0}) → Result W → Result W
test >> rest = test >>= λ passed. rest

pub >>=-eq-ok {ℓ κ} :
    {V : Type ℓ} {W : Type κ} {w : W} (first : Result V) (next : V → Result W)
    → (first >>= next) ≡ ok w
    → (v : V) × (first ≡ ok v) × (next v ≡ ok w)
unfolding ◌>>=◌
>>=-eq-ok (raise e) next same = cc
>>=-eq-ok (ok v) next same = (v, refl, same)

-- A test that is passed, and a block that returns.
pub >>-ok :
    {W : Type 0} (b : Bool) (e : Exception) (rest : Result W) (w : W)
    → ((require b e >> rest) ≡ ok w) ↔ ((b ≡ true) × (rest ≡ ok w))
unfolding ◌>>=◌
>>-ok true e rest w = (λ h. (refl, h), λ h. h.1)
>>-ok false e rest w = (λ h. cc, λ h. cc)

pub reject-ok :
    {W : Type 0} (b : Bool) (e : Exception) (rest : Result W) (w : W)
    → ((reject b e >> rest) ≡ ok w) ↔ ((b ≡ false) × (rest ≡ ok w))
unfolding ◌>>=◌
reject-ok true e rest w = (λ h. cc, λ h. cc)
reject-ok false e rest w = (λ h. (refl, h), λ h. h.1)

-- [f(x) for x in xs], left to right, ended by the first exception
unfoldable pub traverse {ℓ κ} :
    {A : Type ℓ} {B : Type κ} → (A → Result B) → List A → Result (List B)
traverse f [] = ok []
traverse f (x ∷ xs) = do y ← f x; ys ← traverse f xs; ok (y ∷ ys)

abbrev value_or {ℓ} : {A : Type ℓ} → A → Result A → A
value_or d (ok a) = a
value_or d (raise e) = d

pub ok-injective {ℓ} : {A : Type ℓ} {a b : A} → ok a ≡ ok b → a ≡ b
ok-injective {a = a} e = ap (value_or a) e

abbrev error_or {ℓ} : {A : Type ℓ} → Exception → Result A → Exception
error_or d (ok a) = d
error_or d (raise e) = e

pub raise-injective {ℓ} :
    {A : Type ℓ} {e f : Exception} → ◌≡◌ {A = Result A} (raise e) (raise f) → e ≡ f
raise-injective {e = e} h = ap (error_or e) h

pub raise-ne-ok {ℓ} : {A : Type ℓ} {e : Exception} {a : A} → raise e ≡ ok a → ⊥
raise-ne-ok h = cc

-- A postcondition: `P` holds of the value, if there is one.
pub data Ensures {ℓ κ} {A : Type ℓ} (P : A → Type κ) : Result A → Type (ℓ ⊔ κ) where
  holds : {a : A} → P a → Ensures P (ok a)
  raised : {e : Exception} → Ensures P (raise e)

module _ {ℓ κ} {A : Type ℓ} {P : A → Type κ} where
  pub Ensures-ok : {r : Result A} {a : A} → Ensures P r → r ≡ ok a → P a
  Ensures-ok (holds p) e = subst P (ok-injective e) p
  Ensures-ok raised e = cc

  pub Ensures-all : {r : Result A} → ((a : A) → r ≡ ok a → P a) → Ensures P r
  Ensures-all {r = ok a} h = holds (h a refl)
  Ensures-all {r = raise e} h = raised

pub Ensures-require : (b : Bool) (e : Exception) → Ensures (λ _. b ≡ true) (require b e)
unfolding require
Ensures-require true e = holds refl
Ensures-require false e = raised

pub Ensures-reject : (b : Bool) (e : Exception) → Ensures (λ _. b ≡ false) (reject b e)
unfolding reject
Ensures-reject true e = raised
Ensures-reject false e = holds refl

module _ {ℓ κ μ ν} {A : Type ℓ} {B : Type κ} {P : A → Type μ} {Q : B → Type ν} where
  pub Ensures-bind :
      {r : Result A} {f : A → Result B}
      → Ensures P r
      → ((a : A) → P a → Ensures Q (f a))
      → Ensures Q (r >>= f)
  unfolding ◌>>=◌
  Ensures-bind (holds p) k = k _ p
  Ensures-bind raised k = raised

module _ {ℓ κ μ} {A : Type ℓ} {P : A → Type κ} {Q : A → Type μ} where
  pub Ensures-map : {r : Result A} → ((a : A) → P a → Q a) → Ensures P r → Ensures Q r
  Ensures-map k (holds p) = holds (k _ p)
  Ensures-map k raised = raised

module _ {ℓ κ} {A : Type ℓ} {P : A → Type κ} where
  pub Ensures-if :
      (b : Bool) {r s : Result A}
      → (b ≡ true → Ensures P r)
      → (b ≡ false → Ensures P s)
      → Ensures P (if b then r else s)
  Ensures-if true h k = h refl
  Ensures-if false h k = k refl

pub Ensures-traverse {ℓ κ μ} :
    {A : Type ℓ} {B : Type κ} {P : B → Type μ} {f : A → Result B} (xs : List A)
    → ((x : A) → Ensures P (f x))
    → Ensures (All P) (traverse f xs)
unfolding traverse
Ensures-traverse [] h = holds tt
Ensures-traverse (x ∷ xs) h =
    Ensures-bind (h x) λ y py. Ensures-bind (Ensures-traverse xs h) λ ys pys. holds (py, pys)

pub Ensures-both {ℓ κ μ} :
    {A : Type ℓ} {P : A → Type κ} {Q : A → Type μ} {r : Result A}
    → Ensures P r
    → Ensures Q r
    → Ensures (λ a. P a × Q a) r
Ensures-both {r = ok a} p q = holds (Ensures-ok p refl, Ensures-ok q refl)
Ensures-both {r = raise e} p q = raised

pub Ensures-any {ℓ} : {A : Type ℓ} (r : Result A) → Ensures (λ _. Unit {0}) r
Ensures-any (ok a) = holds tt
Ensures-any (raise e) = raised
