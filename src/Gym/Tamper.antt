-- ===== src/Gym/Tamper.antt =====
-- Two accepted ledgers with one root.
use artifact_proof_lab.Base.{
  ℕ, suc, ◌∷◌, String, ◌≡◌, ◌≢◌, refl, sym, ◌∙◌, [], subst, ◌⊎◌, inl, inr, Bool-cases, Option, none,
  some, List, map, length, ◌==◌, eq_iff, arith,
}
use artifact_proof_lab.Base.Outcome.{ok}
use artifact_proof_lab.Json.{fields_of, Json, Number, Fields, Items, str, obj, arr, get, elements}
use artifact_proof_lab.Platform.{Platform}
use artifact_proof_lab.Model.{number}
use artifact_proof_lab.Gym.Canonical.{sort_value, sha256_json}
use artifact_proof_lab.Gym.Ledger.{header, zero_hash}
use artifact_proof_lab.Gym.Verify.{entry_hash_of, verify_ledger_document}
use artifact_proof_lab.Gym.Episodes.{
  Linked, none_left, link, Episode, verify_ledger_document-Episode,
}

-- raw.get(key) of an entry
abbrev pub entry_value : String → Json Number → Option (Json Number)
entry_value key (obj entry) = get key entry
entry_value key _ = none

abbrev pub Same : List (Json Number) → List (Json Number) → Type 0
Same xs ys =
    (map (entry_value "kind") xs ≡ map (entry_value "kind") ys)
    × (map (entry_value "payload_sha256") xs ≡ map (entry_value "payload_sha256") ys)

-- The header as it is hashed, its keys in order.
pub canonical_header : ℕ → String → String → String → Json Number
canonical_header index kind previous payload = sort_value (header index kind previous payload)

sorted_header :
    (index : ℕ) (k p d : String)
    → canonical_header index k p d
      ≡ obj (
          fields_of (
            ("index", number index)
            ∷ ("kind", str k)
            ∷ ("payload_sha256", str d)
            ∷ ("previous_hash", str p)
            ∷ []))
unfolding canonical_header sort_value
sorted_header index k p d = refl

headers-injective :
    (index : ℕ) (k l p q d e : String)
    → canonical_header index k p d ≡ canonical_header index l q e
    → (k ≡ l) × (p ≡ q) × (d ≡ e)
headers-injective index k l p q d e h =
    go (sym (sorted_header index k p d) ∙ h ∙ sorted_header index l q e)
  where
    go :
        obj (
            fields_of (
              ("index", number index)
              ∷ ("kind", str k)
              ∷ ("payload_sha256", str d)
              ∷ ("previous_hash", str p)
              ∷ []))
          ≡ obj (
              fields_of (
                ("index", number index)
                ∷ ("kind", str l)
                ∷ ("payload_sha256", str e)
                ∷ ("previous_hash", str q)
                ∷ []))
        → (k ≡ l) × (p ≡ q) × (d ≡ e)
    go same = (cc, cc, cc)

-- Two headers of one place differ, or they agree in all that they cover.
same_fields :
    (index : ℕ) (k l p q d e : String)
    → (canonical_header index k p d ≢ canonical_header index l q e) ⊎ ((k ≡ l) × (p ≡ q) × (d ≡ e))
same_fields index k l p q d e = elim (Bool-cases (k == l)) [
  | inr differ ↦
      inl λ same. cc (differ, (eq_iff k l).1 (headers-injective index k l p q d e same).0)
  | inl kinds ↦ elim (Bool-cases (p == q)) [
    | inr differ ↦
        inl λ same. cc (differ, (eq_iff p q).1 (headers-injective index k l p q d e same).1)
    | inl previous ↦ elim (Bool-cases (d == e)) [
      | inr differ ↦
          inl λ same. cc (differ, (eq_iff d e).1 (headers-injective index k l p q d e same).2)
      | inl payloads ↦ inr ((eq_iff k l).0 kinds, (eq_iff p q).0 previous, (eq_iff d e).0 payloads)
    ]
  ]
]

-- The entry's own fields that its hash covers, beside its position.
pub record HasHeader (entry : Fields Number) (kind previous payload : String) : Type 0 where
  pub is_kind : get "kind" entry ≡ some (str kind)
  pub is_previous : get "previous_hash" entry ≡ some (str previous)
  pub is_payload : get "payload_sha256" entry ≡ some (str payload)

module _ (platform : Platform) where
  -- At one place of the two lists, counted from `index`, stand entries whose headers, each of the
  -- place and the entry's own fields, differ, with their keys in order, and have one digest all the same.
  pub data Clash : ℕ → List (Json Number) → List (Json Number) → Type 0 where
    here :
        (index : ℕ) (entry other : Fields Number) (k l p q d e : String)
        (xs ys : List (Json Number))
        → HasHeader entry k p d
        → HasHeader other l q e
        → canonical_header index k p d ≢ canonical_header index l q e
        → sha256_json platform (header index k p d) ≡ sha256_json platform (header index l q e)
        → Clash index (obj entry ∷ xs) (obj other ∷ ys)
    later :
        (index : ℕ) (x y : Json Number) (xs ys : List (Json Number))
        → Clash (suc index) xs ys
        → Clash index (x ∷ xs) (y ∷ ys)

  chains-agree :
      (index : ℕ) (p q root : String) (xs ys : List (Json Number)) (ks ls : List String)
      → Linked platform index p xs ks root
      → Linked platform index q ys ls root
      → length xs ≡ length ys
      → Clash index xs ys ⊎ ((p ≡ q) × Same xs ys)
  chains-agree index p q root xs ys ks ls none_left none_left same = inr (refl, (refl, refl))
  chains-agree index p q root xs ys ks ls none_left (link l f w ws a b c d e more) same =
      absurd (omega (arith, same))
  chains-agree index p q root xs ys ks ls (link k f v vs a b c d e more) none_left same =
      absurd (omega (arith, same))
  chains-agree index p q root xs ys ks ls (link k f v vs a b c d e more)
        (link l g w ws a' b' c' d' e' more') same =
      elim (chains-agree (suc index) (entry_hash_of platform index k p v)
        (entry_hash_of platform index l q w) root vs ws _ _ more more' (omega (arith, same))) [
          | inl clash ↦ inl (later index (obj f) (obj g) vs ws clash)
          | inr (hash, rest) ↦
              elim (same_fields index k l p q (sha256_json platform (obj v))
                (sha256_json platform (obj w))) [
                  | inl differ ↦ inl (
                      here index f g k l p q (sha256_json platform (obj v))
                        (sha256_json platform (obj w)) vs ws
                        (record { is_kind = a; is_previous = c; is_payload = d })
                        (record { is_kind = a'; is_previous = c'; is_payload = d' }) differ hash)
                  | inr (kinds, previous, payloads) ↦
                      inr (previous, (cc (a, a', kinds, rest.0), cc (d, d', payloads, rest.1)))
                ]
        ]

  Episode-of :
      (document : Fields Number) (raws : Items Number) (root : String)
      → verify_ledger_document platform document ≡ ok tt
      → get "entries" document ≡ some (arr raws)
      → get "root_sha256" document ≡ some (str root)
      → Episode platform (elements raws) root
  Episode-of document raws root h entries is_root =
      let (xs, r, ex, er, episode) = verify_ledger_document-Episode platform document h in
      let same_entries : xs ≡ raws = cc (ex, entries) in
      let same_root : r ≡ root = cc (er, is_root) in
      subst (λ t. Episode platform (elements raws) t) same_root
        (subst (λ es. Episode platform (elements es) r) same_entries episode)

  -- Two accepted documents with one root and as many entries have entries of the same kinds with
  -- the same payload digests, one by one, unless at one place they have entries whose headers,
  -- each of the place and the entry's own kind, previous hash and payload digest, differ, with
  -- their keys in order, and have one digest all the same.
  pub root-binds :
      (document other : Fields Number) (raws others : Items Number) (root : String)
      → verify_ledger_document platform document ≡ ok tt
      → verify_ledger_document platform other ≡ ok tt
      → get "entries" document ≡ some (arr raws)
      → get "entries" other ≡ some (arr others)
      → get "root_sha256" document ≡ some (str root)
      → get "root_sha256" other ≡ some (str root)
      → length (elements raws) ≡ length (elements others)
      → Clash 0 (elements raws) (elements others) ⊎ Same (elements raws) (elements others)
  unfolding Episode
  root-binds document other raws others root h k eh ek rh rk same =
      let (kinds, _, chain) = Episode-of document raws root h eh rh in
      let (labels, _, chain') = Episode-of other others root k ek rk in
      elim (chains-agree 0 zero_hash zero_hash root (elements raws) (elements others) _ _ chain
        chain' same) [ inl clash ↦ inl clash | inr (_, rest) ↦ inr rest ]
