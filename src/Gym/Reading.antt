-- ===== src/Gym/Reading.antt =====
-- The verifier reads an appended entry after all the entries before it.
use artifact_proof_lab.Base.{
  ℕ, suc, ◌+◌, String, ◌≡◌, refl, ap, sym, ◌∙◌, true, false, Option, List, [], ◌∷◌, ◌++◌, map,
  length, eqb, eq_refl, arith,
}
use artifact_proof_lab.Base.Outcome.{Result, ok, reject, ◌>>=◌, >>=-eq-ok, ok-injective}
use artifact_proof_lab.Json.{Json, Number, Fields, obj, get}
use artifact_proof_lab.Platform.{Platform}
use artifact_proof_lab.Gym.Canonical.{sha256_json}
use artifact_proof_lab.Gym.Ledger.{LedgerEntry, to_dict, root_sha256, new_entry, append}
use artifact_proof_lab.Gym.Verify.{
  Link, Chain, first_chain, entry_hash_of, read_link, on_kind, verify_entries,
}

map-append : {A B : Type 0} (f : A → B) (xs ys : List A) → map f (xs ++ ys) ≡ map f xs ++ map f ys
map-append f [] ys = refl
map-append f (x ∷ xs) ys = ap (λ zs. f x ∷ zs) (map-append f xs ys)

pub root_sha256-append :
    (es : List LedgerEntry) (e : LedgerEntry) → root_sha256 (es ++ e ∷ []) ≡ e.entry_hash
unfolding root_sha256
root_sha256-append [] e = refl
root_sha256-append (d ∷ []) e = refl
root_sha256-append (d ∷ f ∷ es) e = root_sha256-append (f ∷ es) e

pub >>=-of-ok :
    {A B : Type 0} (m : Result A) (f : A → Result B) {a : A} → m ≡ ok a → (m >>= f) ≡ f a
unfolding ◌>>=◌
>>=-of-ok m f e = rw e refl

pub length-map : {A B : Type 0} (f : A → B) (xs : List A) → length (map f xs) ≡ length xs
length-map f [] = refl
length-map f (x ∷ xs) = ap (λ n. suc n) (length-map f xs)

pub eqb_refl : (n : ℕ) → eqb n n ≡ true
eqb_refl n = ground arith

module _ (platform : Platform) where
  -- An entry as `append` writes it, at its place in the chain.
  read_link-new :
      (n : ℕ) (kind previous : String) (payload : Fields Number)
      → let payload_sha256 = sha256_json platform (obj payload) in
        let entry_hash = entry_hash_of platform n kind previous payload in
        read_link platform n previous (
          to_dict (record {
            index = n;
            kind = kind;
            previous_hash = previous;
            payload_sha256 = payload_sha256;
            payload = payload;
            entry_hash = entry_hash;
          }))
        ≡ ok (record { kind = kind; payload = payload; entry_hash = entry_hash })
  unfolding read_link to_dict get ◌>>=◌
  read_link-new n kind previous payload =
      rw
        (
          eqb_refl n,
          eq_refl previous,
          eq_refl (sha256_json platform (obj payload)),
          eq_refl (entry_hash_of platform n kind previous payload),
        )
        refl

  verify_entries-append :
      (i : ℕ) (c last : Chain) (xs ys : List (Json Number))
      → verify_entries platform i c xs ≡ ok last
      → verify_entries platform i c (xs ++ ys) ≡ verify_entries platform (i + length xs) last ys
  unfolding verify_entries
  verify_entries-append i c last [] ys h =
      ap (λ k. verify_entries platform k c ys) (omega arith)
      ∙ ap (λ d. verify_entries platform (i + 0) d ys) (ok-injective h)
  verify_entries-append i c last (x ∷ xs) ys h =
      let (l, e0, h1) = >>=-eq-ok _ _ h in
      let (_, e1, h2) = >>=-eq-ok _ _ h1 in
      let (next, e2, h3) = >>=-eq-ok _ _ h2 in
      >>=-of-ok _ _ e0
      ∙ >>=-of-ok _ _ e1
      ∙ >>=-of-ok _ _ e2
      ∙ verify_entries-append (suc i) (record next { previous_hash = l.entry_hash }) last xs ys h3
      ∙ ap (λ k. verify_entries platform k last ys) (omega arith)

  verify_entries-one :
      (n : ℕ) (c : Chain) (raw : Json Number) (l : Link) (next : Chain)
      → read_link platform n c.previous_hash raw ≡ ok l
      → c.terminal_seen ≡ false
      → on_kind platform n l c ≡ ok next
      → verify_entries platform n c (raw ∷ []) ≡ ok (record next { previous_hash = l.entry_hash })
  unfolding verify_entries reject
  verify_entries-one n c raw l next e0 open_ e2 =
      >>=-of-ok _ _ e0 ∙ >>=-of-ok _ _ (rw open_ refl) ∙ >>=-of-ok _ _ e2

  abbrev pub chain_of : List LedgerEntry → List (Json Number) → Option String → Chain
  chain_of es frontier pending = record {
    previous_hash = root_sha256 es;
    observed_frontier = frontier;
    pending_decision_hash = pending;
    terminal_seen = false;
  }

  -- The verifier reads the entries, and has this frontier and this decision pending then.
  abbrev pub Reads : List LedgerEntry → List (Json Number) → Option String → Type 0
  Reads es frontier pending =
      verify_entries platform 0 first_chain (map to_dict es) ≡ ok (chain_of es frontier pending)

  abbrev pub new_link : List LedgerEntry → String → Fields Number → Link
  new_link es kind payload = record {
    kind = kind;
    payload = payload;
    entry_hash = entry_hash_of platform (length es) kind (root_sha256 es) payload;
  }

  pub append-Reads :
      (es : List LedgerEntry) (frontier : List (Json Number)) (pending : Option String)
      (kind : String) (payload : Fields Number) (next : Chain)
      → Reads es frontier pending
      → on_kind platform (length es) (new_link es kind payload) (chain_of es frontier pending)
        ≡ ok next
      → verify_entries platform 0 first_chain (map to_dict (append platform kind payload es))
        ≡ ok (record next { previous_hash = (new_link es kind payload).entry_hash })
  unfolding append new_entry
  append-Reads es frontier pending kind payload next reads step =
      let c = chain_of es frontier pending in
      let e = new_entry platform es kind payload in
      ap (verify_entries platform 0 first_chain) (map-append to_dict es (e ∷ []))
      ∙ verify_entries-append 0 first_chain c (map to_dict es) (to_dict e ∷ []) reads
      ∙ ap (λ k. verify_entries platform k c (to_dict e ∷ []))
          (omega (arith, length-map to_dict es))
      ∙ verify_entries-one (length es) c (to_dict e) (new_link es kind payload) next
          (read_link-new (length es) kind (root_sha256 es) payload) refl step

  pub appended :
      (es : List LedgerEntry) (f g : List (Json Number)) (p q : Option String) (kind : String)
      (payload : Fields Number)
      → Reads es f p
      → on_kind platform (length es) (new_link es kind payload) (chain_of es f p)
        ≡ ok (chain_of es g q)
      → Reads (append platform kind payload es) g q
  unfolding append new_entry
  appended es f g p q kind payload reads step =
      append-Reads es f p kind payload (chain_of es g q) reads step
      ∙ ap (λ h. ok (record (chain_of es g q) { previous_hash = h }))
          (sym (root_sha256-append es (new_entry platform es kind payload)))
