-- ===== src/Gym/Episodes.antt =====
-- What a ledger that `verify_ledger_document` accepts looks like.
use artifact_proof_lab.Base.{
  ℕ, suc, String, ◌≡◌, ◌≢◌, refl, ap, subst, sym, ◌∙◌, true, Option, some, some-eq, List, [], ◌∷◌,
  eq_iff,
}
use artifact_proof_lab.Base.Outcome.{
  ok, Ensures, holds, raised, Ensures-ok, Ensures-require, Ensures-reject, Ensures-bind,
  Ensures-map,
}
use artifact_proof_lab.Json.{Json, Number, Fields, Items, str, obj, arr, cons, get, elements}
use artifact_proof_lab.Platform.{Platform}
use artifact_proof_lab.Gym.Canonical.{sha256_json}
use artifact_proof_lab.Gym.Ledger.{zero_hash}
use artifact_proof_lab.Gym.Verify.{
  is_text, as_object, as_text, Link, Chain, first_chain, entry_hash_of, read_link, on_start,
  on_kind, verify_entries, filled_list, verify_ledger_document,
}
use artifact_proof_lab.Gym.Turns.{Turns, RestOf, Rest-over}
use artifact_proof_lab.Gym.Advances.{Advances, on_kind-Advances}

cons-ne-nil : (v : Json Number) (vs : List (Json Number)) → (v ∷ vs) ≢ []
cons-ne-nil v vs e = cc

pub filled_list-Ensures :
    (v : Option (Json Number))
    → Ensures
        (λ entries.
          ((vs : Items Number) × ((v ≡ some (arr vs)) × (elements vs ≡ entries))) × (entries ≢ []))
        (filled_list v)
unfolding filled_list elements
filled_list-Ensures (some (arr (cons v vs))) =
    holds ((cons v vs, (refl, refl)), cons-ne-nil v (elements vs))
filled_list-Ensures _ = raised

pub as_object-Ensures :
    (v : Option (Json Number)) (reason : String)
    → Ensures (λ fs. v ≡ some (obj fs)) (as_object v reason)
unfolding as_object
as_object-Ensures (some (obj fs)) reason = holds refl
as_object-Ensures _ reason = raised

pub as_text-Ensures :
    (v : Option (Json Number)) (reason : String)
    → Ensures (λ s. v ≡ some (str s)) (as_text v reason)
unfolding as_text
as_text-Ensures (some (str s)) reason = holds refl
as_text-Ensures _ reason = raised

pub is_text-eq : (v : Option (Json Number)) (t : String) → is_text v t ≡ true → v ≡ some (str t)
is_text-eq (some (str s)) t h = ap (λ k. some (str k)) ((eq_iff s t).0 h)
is_text-eq _ t h = cc

module _ (platform : Platform) where
  -- Each entry carries the hash of the one before, and its own is taken of its position, its kind,
  -- that hash, and the digest of its payload.
  pub data Linked : ℕ → String → List (Json Number) → List String → String → Type 0 where
    none_left : {index : ℕ} {root : String} → Linked index root [] [] root
    link :
        (kind : String) (entry payload : Fields Number) (raws : List (Json Number))
        {kinds : List String} {index : ℕ} {previous root : String}
        → get "kind" entry ≡ some (str kind)
        → get "payload" entry ≡ some (obj payload)
        → get "previous_hash" entry ≡ some (str previous)
        → get "payload_sha256" entry ≡ some (str (sha256_json platform (obj payload)))
        → get "entry_hash" entry ≡ some (str (entry_hash_of platform index kind previous payload))
        → Linked (suc index) (entry_hash_of platform index kind previous payload) raws kinds root
        → Linked index previous (obj entry ∷ raws) (kind ∷ kinds) root

  -- What `read_link` establishes of an entry.
  record IsLink (index : ℕ) (previous : String) (raw : Json Number) (l : Link) : Type 0 where
    pub entry : Fields Number
    pub is_entry : raw ≡ obj entry
    pub kind : get "kind" entry ≡ some (str l.kind)
    pub payload : get "payload" entry ≡ some (obj l.payload)
    pub previous_hash : get "previous_hash" entry ≡ some (str previous)
    pub payload_sha256 :
        get "payload_sha256" entry ≡ some (str (sha256_json platform (obj l.payload)))
    pub entry_hash : get "entry_hash" entry ≡ some (str l.entry_hash)
    pub hashed : l.entry_hash ≡ entry_hash_of platform index l.kind previous l.payload

  read_link-IsLink :
      (index : ℕ) (previous : String) (raw : Json Number)
      → Ensures (IsLink index previous raw) (read_link platform index previous raw)
  unfolding read_link
  read_link-IsLink index previous raw =
      Ensures-bind (as_object-Ensures (some raw) _) λ entry is_entry.
        Ensures-bind (Ensures-require _ _) λ _ _.
          Ensures-bind (as_text-Ensures (get "kind" entry) _) λ kind is_kind.
            Ensures-bind (as_object-Ensures (get "payload" entry) _) λ payload is_payload.
              Ensures-bind (Ensures-require _ _) λ _ previous_hash.
                Ensures-bind (Ensures-require _ _) λ _ payload_sha256.
                  Ensures-bind (Ensures-require _ _) λ _ entry_hash. holds (record {
                    entry = entry;
                    is_entry = some-eq is_entry;
                    kind = is_kind;
                    payload = is_payload;
                    previous_hash = is_text-eq (get "previous_hash" entry) _ previous_hash;
                    payload_sha256 = is_text-eq (get "payload_sha256" entry) _ payload_sha256;
                    entry_hash = is_text-eq (get "entry_hash" entry) _ entry_hash;
                    hashed = refl;
                  })

  linked :
      (index : ℕ) (previous root : String) (raw : Json Number) (raws : List (Json Number))
      (kinds : List String) (l : Link)
      → IsLink index previous raw l
      → Linked (suc index) l.entry_hash raws kinds root
      → Linked index previous (raw ∷ raws) (l.kind ∷ kinds) root
  linked index previous root raw raws kinds l is_link rest =
      subst (λ r. Linked index previous (r ∷ raws) (l.kind ∷ kinds) root) (sym is_link.is_entry)
        (link l.kind is_link.entry l.payload raws is_link.kind is_link.payload is_link.previous_hash
          is_link.payload_sha256 (is_link.entry_hash ∙ ap (λ h. some (str h)) is_link.hashed)
          (subst (λ h. Linked (suc index) h raws kinds root) is_link.hashed rest))

  -- The entries from a place after the first one, when the last one is terminal.
  Ends : ℕ → Chain → List (Json Number) → Chain → Type 0
  Ends index c raws last =
      last.terminal_seen ≡ true
      → (kinds : List String) × RestOf c kinds
        × Linked index c.previous_hash raws kinds last.previous_hash

  entries-Ends :
      (index : ℕ) (c : Chain) (raws : List (Json Number))
      → Ensures (Ends (suc index) c raws) (verify_entries platform (suc index) c raws)
  unfolding verify_entries Ends Advances
  entries-Ends index c [] =
      holds λ over. ([], Rest-over c.pending_decision_hash c.terminal_seen over, none_left)
  entries-Ends index c (raw ∷ raws) =
      Ensures-bind (read_link-IsLink (suc index) c.previous_hash raw) λ l is_link.
        Ensures-bind (Ensures-reject _ _) λ _ open_.
          Ensures-bind (on_kind-Advances platform index l c open_) λ next advance.
            Ensures-map
              (λ last rest over.
                let (kinds, more, chain) = rest over in
                (
                  l.kind ∷ kinds,
                  advance kinds more,
                  linked (suc index) c.previous_hash last.previous_hash raw raws kinds l is_link
                      chain,
                ))
              (entries-Ends (suc index) (record next { previous_hash = l.entry_hash }) raws)

  on_start-Ensures :
      (l : Link) (c : Chain)
      → Ensures (λ next. (next ≡ c) × (l.kind ≡ "EPISODE_START")) (on_kind platform 0 l c)
  unfolding on_kind on_start
  on_start-Ensures l c = Ensures-bind (Ensures-require _ _) λ _ kind.
      Ensures-bind (Ensures-require _ _) λ _ _.
        Ensures-bind (Ensures-require _ _)
          λ _ _. holds (refl, (eq_iff l.kind "EPISODE_START").0 kind)

  -- All the entries of an accepted ledger, with the root it ends in.
  unfoldable pub Episode : List (Json Number) → String → Type 0
  Episode raws root =
      (kinds : List String) × Turns kinds × Linked 0 zero_hash raws ("EPISODE_START" ∷ kinds) root

  all-Episode :
      (raw : Json Number) (raws : List (Json Number))
      → Ensures
          (λ last. last.terminal_seen ≡ true → Episode (raw ∷ raws) last.previous_hash)
          (verify_entries platform 0 first_chain (raw ∷ raws))
  unfolding verify_entries Ends Episode
  all-Episode raw raws = Ensures-bind (read_link-IsLink 0 zero_hash raw) λ l is_link.
      Ensures-bind (Ensures-reject _ _) λ _ open_.
        Ensures-bind (on_start-Ensures l first_chain) λ next started.
          Ensures-map
            (λ last rest over.
              let (kinds, more, chain) = rest over in
              (
                kinds,
                subst (λ c. RestOf c kinds) started.0 more,
                subst (λ k. Linked 0 zero_hash (raw ∷ raws) (k ∷ kinds) last.previous_hash)
                    started.1
                    (linked 0 zero_hash last.previous_hash raw raws kinds l is_link chain),
              ))
            (entries-Ends 0 (record next { previous_hash = l.entry_hash }) raws)

  entries-Episode :
      (raws : List (Json Number))
      → raws ≢ []
      → Ensures
          (λ last. last.terminal_seen ≡ true → Episode raws last.previous_hash)
          (verify_entries platform 0 first_chain raws)
  entries-Episode [] filled = absurd (filled refl)
  entries-Episode (raw ∷ raws) filled = all-Episode raw raws

  -- An accepted document is one episode: it starts with EPISODE_START and is followed by
  -- observation batches and decisions, each decision resolved by its result right after it, until
  -- one TERMINAL, which may resolve a last decision; nothing follows. The entries form one hash
  -- chain from the zero hash, and the root of the document is the hash of the last entry.
  pub verify_ledger_document-Episode :
      (document : Fields Number)
      → verify_ledger_document platform document ≡ ok tt
      → (raws : Items Number) × (root : String) × (get "entries" document ≡ some (arr raws))
        × (get "root_sha256" document ≡ some (str root))
        × Episode (elements raws) root
  unfolding verify_ledger_document
  verify_ledger_document-Episode document h =
      Ensures-ok
        {P = λ _.
          (raws : Items Number) × (root : String) × (get "entries" document ≡ some (arr raws))
          × (get "root_sha256" document ≡ some (str root))
          × Episode (elements raws) root}
        (Ensures-bind (Ensures-require _ _) λ _ _.
          Ensures-bind (filled_list-Ensures (get "entries" document)) λ entries filled.
            Ensures-bind (Ensures-require _ _) λ _ _.
              Ensures-bind (entries-Episode entries filled.1) λ last episode.
                Ensures-bind (Ensures-require _ _) λ _ over.
                  Ensures-map
                    (λ _ is_root. (
                      filled.0.0,
                      last.previous_hash,
                      filled.0.1.0,
                      is_text-eq (get "root_sha256" document) last.previous_hash is_root,
                      subst (λ es. Episode es last.previous_hash) (sym filled.0.1.1) (episode over),
                    ))
                    (Ensures-require _ _))
        h
