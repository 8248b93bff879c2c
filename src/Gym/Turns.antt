-- ===== src/Gym/Turns.antt =====
-- The order of a ledger's entries, and what each kind of entry does to it.
use artifact_proof_lab.Base.{
  String, ◌≡◌, refl, ap, subst, sym, ◌∙◌, ◌⊎◌, inl, inr, Bool, true, false, Option, none, some,
  List, [], ◌∷◌,
}
use artifact_proof_lab.Base.Outcome.{Result, ok, Ensures, holds, raised, Ensures-all}
use artifact_proof_lab.Gym.Verify.{Chain, pending_hash}

-- The entries after the start: a decision is resolved by its result, or by the end of the episode.
pub data Turns : List String → Type 0 where
  finished : Turns ("TERMINAL" ∷ [])
  cut_off : Turns ("DECISION" ∷ "TERMINAL" ∷ [])
  observed : {kinds : List String} → Turns kinds → Turns ("OBSERVATION_BATCH" ∷ kinds)
  acted : {kinds : List String} → Turns kinds → Turns ("DECISION" ∷ "ACTION_RESULT" ∷ kinds)

-- The entries that may follow, by what is pending and whether the terminal entry was seen.
abbrev pub Rest : Option String → Bool → List String → Type 0
Rest pending true kinds = kinds ≡ []
Rest none false kinds = Turns kinds
Rest (some hash) false kinds =
    (kinds ≡ "TERMINAL" ∷ [])
    ⊎ ((more : List String) × (kinds ≡ "ACTION_RESULT" ∷ more) × Turns more)

abbrev pub waits : Option String → Bool
waits p = elim p [ none ↦ false | some _ ↦ true ]

abbrev pub RestOf : Chain → List String → Type 0
RestOf c kinds = Rest c.pending_decision_hash c.terminal_seen kinds

pub Rest-observed :
    (p : Option String) (t : Bool) (kind : String) (kinds : List String)
    → t ≡ false
    → kind ≡ "OBSERVATION_BATCH"
    → waits p ≡ false
    → Rest p t kinds
    → Rest p t (kind ∷ kinds)
Rest-observed none false kind kinds open_ same idle h =
    subst (λ k. Turns (k ∷ kinds)) (sym same) (observed h)
Rest-observed (some hash) false kind kinds open_ same idle h = cc
Rest-observed p true kind kinds open_ same idle h = cc

pub Rest-decided :
    (p : Option String) (t : Bool) (kind hash : String) (kinds : List String)
    → t ≡ false
    → kind ≡ "DECISION"
    → waits p ≡ false
    → Rest (some hash) t kinds
    → Rest p t (kind ∷ kinds)
Rest-decided none false kind hash kinds open_ same idle (inl ends) =
    subst (λ ks. Turns ks) (sym (ap (λ ks. kind ∷ ks) ends ∙ ap (λ k. k ∷ "TERMINAL" ∷ []) same))
      cut_off
Rest-decided none false kind hash kinds open_ same idle (inr (more, ends, turns)) =
    subst (λ ks. Turns ks)
      (sym (ap (λ ks. kind ∷ ks) ends ∙ ap (λ k. k ∷ "ACTION_RESULT" ∷ more) same)) (acted turns)
Rest-decided (some other) false kind hash kinds open_ same idle h = cc
Rest-decided p true kind hash kinds open_ same idle h = cc

pub Rest-acted :
    (p : Option String) (t : Bool) (kind hash : String) (kinds : List String)
    → t ≡ false
    → kind ≡ "ACTION_RESULT"
    → p ≡ some hash
    → Rest none t kinds
    → Rest p t (kind ∷ kinds)
Rest-acted none false kind hash kinds open_ same waiting h = cc
Rest-acted (some other) false kind hash kinds open_ same waiting h =
    inr (kinds, ap (λ k. k ∷ kinds) same, h)
Rest-acted p true kind hash kinds open_ same waiting h = cc

pub Rest-finished :
    (p : Option String) (t : Bool) (kind : String) (kinds : List String)
    → t ≡ false
    → kind ≡ "TERMINAL"
    → kinds ≡ []
    → Rest p t (kind ∷ kinds)
Rest-finished none false kind kinds open_ same ends =
    subst (λ ks. Turns ks) (sym (ap (λ ks. kind ∷ ks) ends ∙ ap (λ k. k ∷ []) same)) finished
Rest-finished (some hash) false kind kinds open_ same ends =
    inl (ap (λ ks. kind ∷ ks) ends ∙ ap (λ k. k ∷ []) same)
Rest-finished p true kind kinds open_ same ends = cc

pub Rest-over : (p : Option String) (t : Bool) → t ≡ true → Rest p t []
Rest-over p true over = refl
Rest-over p false over = cc

pub known : {A : Type 0} (r : Result A) → Ensures (λ a. r ≡ ok a) r
known r = Ensures-all λ a e. e

pub pending_hash-Ensures : (p : Option String) → Ensures (λ hash. p ≡ some hash) (pending_hash p)
unfolding pending_hash
pending_hash-Ensures none = raised
pending_hash-Ensures (some hash) = holds refl
