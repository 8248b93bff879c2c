-- ===== src/Base/Exec.antt =====
-- Methods that change an object and may raise. What was written before a raise stays written.
use mathlib.Core.Path.{◌≡◌, refl, ap, sym, ◌∙◌, subst}
use mathlib.Core.Bool.{Bool, true, false}
use artifact_proof_lab.Base.Tests.{if◌then◌else◌}
use artifact_proof_lab.Base.Outcome.{Exception, Result, ok, raise, ok-injective}

-- From the object before, the result and the object after.
abbrev pub Exec {ℓ} : (Self Value : Type ℓ) → Type ℓ
Exec Self Value = (self : Self) → Result Value × Self

module _ {ℓ} {Self V : Type ℓ} where
  abbrev pub pure : V → Exec Self V
  pure v self = (ok v, self)

  abbrev pub lift : Result V → Exec Self V
  lift result self = (result, self)

module _ {ℓ} {Self V W : Type ℓ} where
  abbrev pub proceed : (V → Exec Self W) → Result V × Self → Result W × Self
  proceed next (raise e, self) = (raise e, self)
  proceed next (ok v, self) = next v self

  infixl 5 ◌>>=◌ ◌>>◌
  unfoldable pub ◌>>=◌ : Exec Self V → (V → Exec Self W) → Exec Self W
  ◌>>=◌ method next self = proceed next (method self)

  abbrev pub ◌>>◌ : Exec Self V → Exec Self W → Exec Self W
  method >> rest = method >>= λ ignored. rest

-- `try: body` / `except E as exc: return ...`; the handler raises again what it does not catch.
abbrev pub handle {ℓ} : {V : Type ℓ} → (Exception → Result V) → Result V → Result V
handle handler (ok v) = ok v
handle handler (raise e) = handler e

module _ {ℓ} {Self V : Type ℓ} where
  unfoldable pub try_except : Exec Self V → (Exception → Result V) → Exec Self V
  try_except body handler self = let ended = body self in (handle handler ended.0, ended.1)

-- A property of the object that the method never breaks, also where it raises.
pub record Keeps {ℓ} {Self V : Type ℓ} (Fine : Self → Type ℓ) (method : Exec Self V) : Type ℓ where
  pub after : (self : Self) → Fine self → Fine (method self).1

module _ {ℓ} {Self V : Type ℓ} {Fine : Self → Type ℓ} where
  pub Keeps-pure : (v : V) → Keeps Fine (pure v)
  Keeps-pure v = record { after = λ self before. before }

  pub Keeps-lift : (result : Result V) → Keeps Fine (lift result)
  Keeps-lift result = record { after = λ self before. before }

  pub Keeps-try :
      (body : Exec Self V) (handler : Exception → Result V)
      → Keeps Fine body
      → Keeps Fine (try_except body handler)
  unfolding try_except
  Keeps-try body handler kept = record { after = kept.after }

module _ {ℓ} {Self V W : Type ℓ} {Fine : Self → Type ℓ} where
  Keeps-proceed :
      (next : V → Exec Self W) (ended : Result V × Self)
      → ((v : V) → Keeps Fine (next v))
      → Fine ended.1
      → Fine (proceed next ended).1
  Keeps-proceed next (raise e, self) kept before = before
  Keeps-proceed next (ok v, self) kept before = (kept v).after self before

  pub Keeps-bind :
      (method : Exec Self V) (next : V → Exec Self W)
      → Keeps Fine method
      → ((v : V) → Keeps Fine (next v))
      → Keeps Fine (method >>= next)
  unfolding ◌>>=◌
  Keeps-bind method next first kept = record {
    after = λ self before. Keeps-proceed next (method self) kept (first.after self before);
  }

module _ {ℓ} {Self V W : Type ℓ} where
  proceed-eq-ok :
      (next : V → Exec Self W) (ended : Result V × Self) {w : W}
      → (proceed next ended).0 ≡ ok w
      → (v : V) × (ended.0 ≡ ok v)
        × ((next v ended.1).0 ≡ ok w)
        × ((proceed next ended).1 ≡ (next v ended.1).1)
  proceed-eq-ok next (raise e, self) same = cc
  proceed-eq-ok next (ok v, self) same = (v, refl, same, refl)

  -- A block that returns has returned from its first step, and from the rest after it.
  pub >>=-eq-ok :
      (method : Exec Self V) (next : V → Exec Self W) (self : Self) {w : W}
      → ((method >>= next) self).0 ≡ ok w
      → (v : V) × ((method self).0 ≡ ok v)
        × ((next v (method self).1).0 ≡ ok w)
        × (((method >>= next) self).1 ≡ (next v (method self).1).1)
  unfolding ◌>>=◌
  >>=-eq-ok method next self same = proceed-eq-ok next (method self) same

-- From a state with `P`, a result of `m` comes with a state where `Q` holds of the two.
pub record Triple {ℓ} {S A : Type ℓ} (P : S → Type ℓ) (m : Exec S A) (Q : A → S → Type ℓ)
    : Type ℓ where
  pub run : (s : S) → P s → (a : A) → (m s).0 ≡ ok a → Q a (m s).1

module _ {ℓ} {S A B : Type ℓ} {P : S → Type ℓ} {Q : A → S → Type ℓ} {R : B → S → Type ℓ} where
  pub Triple-bind :
      (m : Exec S A) (f : A → Exec S B)
      → Triple P m Q
      → ((a : A) → Triple (Q a) (f a) R)
      → Triple P (m >>= f) R
  Triple-bind m f tm tf = record {
    run = λ s h b eq.
        let (a, eq0, eq1, same) = >>=-eq-ok m f s eq in
        subst (R b) (sym same) ((tf a).run (m s).1 (tm.run s h a eq0) b eq1);
  }

module _ {ℓ} {S A : Type ℓ} {P : S → Type ℓ} {Q : A → S → Type ℓ} where
  pub Triple-pure : (a : A) → ((s : S) → P s → Q a s) → Triple P (pure a) Q
  Triple-pure a h = record { run = λ s p b eq. subst (λ c. Q c s) (ok-injective eq) (h s p) }

  pub Triple-lift :
      (r : Result A) → ((a : A) (s : S) → r ≡ ok a → P s → Q a s) → Triple P (lift r) Q
  Triple-lift r h = record { run = λ s p a eq. h a s eq p }

module _ {ℓ} {S A : Type ℓ} {F : S → Type ℓ} {Q : A → S → Type ℓ} where
  -- What `m` keeps goes along with a postcondition that holds from every state.
  pub Triple-also :
      (m : Exec S A) → Keeps F m → Triple (λ _. Unit {ℓ}) m Q → Triple F m (λ a s. F s × Q a s)
  Triple-also m kept t = record { run = λ s p a eq. (kept.after s p, t.run s tt a eq) }

module _ {ℓ} {S A : Type ℓ} {P : S → Type ℓ} {Q R : A → S → Type ℓ} where
  pub Triple-map : (m : Exec S A) → ((a : A) (s : S) → Q a s → R a s) → Triple P m Q → Triple P m R
  Triple-map m h t = record { run = λ s p a eq. h a (m s).1 (t.run s p a eq) }

module _ {ℓ} {S A : Type ℓ} where
  pub Triple-any : (m : Exec S A) → Triple (λ _. Unit {ℓ}) m (λ a s. Unit {ℓ})
  Triple-any m = record { run = λ s p a eq. tt }

module _ {ℓ} {S A : Type ℓ} {P : S → Type ℓ} {Q : A → S → Type ℓ} where
  pub Triple-if :
      (b : Bool) {m n : Exec S A}
      → (b ≡ true → Triple P m Q)
      → (b ≡ false → Triple P n Q)
      → Triple P (if b then m else n) Q
  Triple-if true h k = h refl
  Triple-if false h k = k refl

module _ {ℓ} {S A : Type ℓ} {P : Type ℓ} {Q : A → S → Type ℓ} where
  -- A condition that does not look at the state.
  pub Triple-given : {m : Exec S A} → (P → Triple (λ _. Unit {ℓ}) m Q) → Triple (λ _. P) m Q
  Triple-given h = record { run = λ s p. (h p).run s tt }

-- A method that returns from every state.
abbrev pub Returns {ℓ} : {S A : Type ℓ} → Exec S A → Type ℓ
Returns {S} {A} m = (s : S) → (a : A) × ((m s).0 ≡ ok a)

module _ {ℓ} {S A B : Type ℓ} where
  pub proceed-ok :
      (f : A → Exec S B) (ended : Result A × S) (a : A)
      → ended.0 ≡ ok a
      → proceed f ended ≡ f a ended.1
  proceed-ok f (ok b, s) a e = ap (λ (c : A). f c s) (ok-injective e)
  proceed-ok f (raise e, s) a same = cc

  pub Returns-bind :
      (m : Exec S A) (f : A → Exec S B) → Returns m → ((a : A) → Returns (f a)) → Returns (m >>= f)
  unfolding ◌>>=◌
  Returns-bind m f hm hf = λ s.
      let (a, e) = hm s in
      let (b, e') = hf a (m s).1 in
      (b, ap (λ (p : Result B × S). p.0) (proceed-ok f (m s) a e) ∙ e')

module _ {ℓ} {S A : Type ℓ} where
  pub Returns-pure : (a : A) → Returns {S = S} (pure a)
  Returns-pure a = λ s. (a, refl)

  pub Returns-if :
      (b : Bool) (m n : Exec S A) → Returns m → Returns n → Returns (if b then m else n)
  Returns-if true m n h k = h
  Returns-if false m n h k = k

module _ {ℓ} {S A : Type ℓ} {P : S → Type ℓ} {Q R : A → S → Type ℓ} where
  pub Triple-both : {m : Exec S A} → Triple P m Q → Triple P m R → Triple P m (λ a s. Q a s × R a s)
  Triple-both hq hr = record { run = λ s p a eq. (hq.run s p a eq, hr.run s p a eq) }

module _ {ℓ} {Self V : Type ℓ} {Fine : Self → Type ℓ} where
  pub Keeps-if :
      (b : Bool) (m n : Exec Self V) → Keeps Fine m → Keeps Fine n → Keeps Fine (if b then m else n)
  Keeps-if true m n h k = h
  Keeps-if false m n h k = k

module _ {ℓ} {S A : Type ℓ} {F : S → Type ℓ} where
  pub Triple-keep : (m : Exec S A) → Keeps F m → Triple F m (λ a s. F s)
  Triple-keep m kept = record { run = λ s p a eq. kept.after s p }

module _ {ℓ} {S A B : Type ℓ} where
  proceed-agree :
      (f g : A → Exec S B) (ended : Result A × S) (b : B)
      → ((a : A) (s : S) → (f a s).0 ≡ ok b → f a s ≡ g a s)
      → (proceed f ended).0 ≡ ok b
      → proceed f ended ≡ proceed g ended
  proceed-agree f g (raise e, s) b agree same = refl
  proceed-agree f g (ok a, s) b agree same = agree a s same

  -- Two rests of a block that agree where the first returns `b`.
  pub >>=-agree :
      (m : Exec S A) (f g : A → Exec S B) (s : S) (b : B)
      → ((a : A) (t : S) → (f a t).0 ≡ ok b → f a t ≡ g a t)
      → ((m >>= f) s).0 ≡ ok b
      → (m >>= f) s ≡ (m >>= g) s
  unfolding ◌>>=◌
  >>=-agree m f g s b agree same = proceed-agree f g (m s) b agree same
