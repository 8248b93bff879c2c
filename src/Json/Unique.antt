-- ===== src/Json/Unique.antt =====
-- What the object hook ensures: an object whose decoding succeeds has distinct keys, and so has
-- every object inside it.
use artifact_proof_lab.Base.{
  String, ◌≡◌, subst, some-eq, some, List, [], ◌∷◌, All, Holds, Distinct, not-mem, fresh-apart,
  arith, ◌==◌, Bool-cases, inl, inr,
}
use artifact_proof_lab.Base.Outcome.{Exception, ok, ◌>>=◌}
use artifact_proof_lab.Json.{Json, Fields, obj, end, field, get, keys, unique_object, unique_value}

module _ {N : Type 0} (duplicate : Exception) where
  keys-Distinct :
      (seen : List String) (fs : Fields N)
      → unique_object duplicate seen fs ≡ ok tt
      → All (λ k. ¬ Holds k seen) (keys fs) × Distinct (keys fs)
  unfolding unique_object keys ◌>>=◌
  keys-Distinct seen end h = (tt, tt)
  keys-Distinct seen (field k v fs) h =
      let (fresh, distinct) = keys-Distinct (k ∷ seen) fs (ground arith) in
      let (apart, older) = fresh-apart k seen (keys fs) fresh in
      ((not-mem k seen (ground arith), older), (apart, distinct))

  unique_object-field :
      (seen : List String) (k : String) (v : Json N) (fs : Fields N)
      → unique_object duplicate seen (field k v fs) ≡ ok tt
      → (unique_value duplicate v ≡ ok tt) × (unique_object duplicate (k ∷ seen) fs ≡ ok tt)
  unfolding unique_object ◌>>=◌
  unique_object-field seen k v fs h = (ground arith, ground arith)

  get_unique :
      (k : String) (seen : List String) (fs : Fields N) {v : Json N}
      → unique_object duplicate seen fs ≡ ok tt
      → get k fs ≡ some v
      → unique_value duplicate v ≡ ok tt
  unfolding get
  get_unique k seen end h e = cc
  get_unique k seen (field j w fs) h e =
      let (now, later) = unique_object-field seen j w fs h in
      elim (Bool-cases (j == k)) [
        | inl here ↦ subst (λ u. unique_value duplicate u ≡ ok tt) (some-eq (rw here at e)) now
        | inr there ↦ get_unique k (j ∷ seen) fs later (rw there at e)
      ]

  pub unique_value-keys :
      (fs : Fields N) → unique_value duplicate (obj fs) ≡ ok tt → Distinct (keys fs)
  unfolding unique_object
  unique_value-keys fs h = (keys-Distinct [] fs h).1

  pub unique_value-get :
      (k : String) (fs : Fields N) {v : Json N}
      → unique_value duplicate (obj fs) ≡ ok tt
      → get k fs ≡ some v
      → unique_value duplicate v ≡ ok tt
  unfolding unique_object
  unique_value-get k fs h e = get_unique k [] fs h e
