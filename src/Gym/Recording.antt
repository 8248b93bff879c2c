-- ===== src/Gym/Recording.antt =====
-- A ledger that is recorded in order is accepted by `verify_ledger_document`.
use artifact_proof_lab.Base.{
  ℕ, suc, String, ◌≡◌, ◌≢◌, refl, ap, sym, ◌∙◌, subst, Bool, true, Option, none, some, List, [],
  ◌∷◌, ◌++◌, map, length, eq_refl, arith,
}
use artifact_proof_lab.Base.Outcome.{ok, require}
use artifact_proof_lab.Json.{Json, Number, Fields, arr, get, items_of}
use artifact_proof_lab.Platform.{Platform}
use artifact_proof_lab.Gym.Ledger.{
  LedgerEntry, to_dict, root_sha256, new_entry, append, start_ledger, start_payload,
  observation_payload, decision_payload, action_payload, terminal_payload, record_observation_batch,
  record_decision, record_action_result, record_terminal, to_document,
}
use artifact_proof_lab.Gym.Verify.{
  Chain, first_chain, on_kind, verify_entries, filled_list, verify_ledger_document,
}
use artifact_proof_lab.Gym.Reading.{
  >>=-of-ok, length-map, eqb_refl, chain_of, Reads, new_link, append-Reads, appended,
  root_sha256-append,
}
use artifact_proof_lab.Gym.Steps.{
  elements-items_of, chain, started-step, observed-step, decided-step, acted-step, terminal-step,
}

length-snoc : {A : Type 0} (xs : List A) (x : A) → length (xs ++ x ∷ []) ≡ suc (length xs)
length-snoc [] x = refl
length-snoc (y ∷ xs) x = omega (arith, length-snoc xs x)

filled_list-items :
    (vs : List (Json Number)) → vs ≢ [] → filled_list (some (arr (items_of vs))) ≡ ok vs
unfolding filled_list
filled_list-items [] filled = absurd (filled refl)
filled_list-items (v ∷ vs) filled = ap (λ ws. ok (v ∷ ws)) (elements-items_of vs)

map-snoc-filled : {A B : Type 0} (f : A → B) (xs : List A) (x : A) → map f (xs ++ x ∷ []) ≢ []
map-snoc-filled f [] x e = cc
map-snoc-filled f (y ∷ xs) x e = cc

module _ (platform : Platform) where
  -- A ledger that was recorded in order, with the observations that it shows and the hash of the
  -- decision that waits for its result.
  pub data Recording : List LedgerEntry → List (Json Number) → Option String → Type 0 where
    started :
        (view : Json Number) (commitment : String)
        → Recording (start_ledger platform view commitment) [] none
    observed :
        (observations : List (Json Number)) (phase : String) (es : List LedgerEntry)
        (frontier : List (Json Number))
        → Recording es frontier none
        → Recording
            (record_observation_batch platform observations phase es)
            (frontier ++ observations)
            none
    decided :
        (decision : Fields Number) (es : List LedgerEntry) (frontier : List (Json Number))
        → Recording es frontier none
        → Recording
            (record_decision platform decision frontier es)
            frontier
            (some (root_sha256 (record_decision platform decision frontier es)))
    acted :
        (hash action : String) (observations : List (Json Number)) (done : Bool)
        (accepted : Option Bool) (candidate : Option String) (es : List LedgerEntry)
        (frontier : List (Json Number))
        → Recording es frontier (some hash)
        → Recording
            (record_action_result platform hash action observations done accepted candidate es)
            (frontier ++ observations)
            none

  Recording-filled :
      (es : List LedgerEntry) (frontier : List (Json Number)) (pending : Option String)
      → Recording es frontier pending
      → (n : ℕ) × (length es ≡ suc n)
  unfolding start_ledger record_observation_batch record_decision record_action_result append
  Recording-filled es frontier pending (started view commitment) = (0, refl)
  Recording-filled es frontier pending (observed observations phase before f r) =
      (length before, length-snoc before _)
  Recording-filled es frontier pending (decided decision before f r) =
      (length before, length-snoc before _)
  Recording-filled es frontier pending
        (acted hash action observations done accepted candidate before f r) =
      (length before, length-snoc before _)

  empty-Reads : Reads platform [] [] none
  unfolding verify_entries root_sha256
  empty-Reads = refl

  root_sha256-new :
      (es : List LedgerEntry) (kind : String) (payload : Fields Number)
      → root_sha256 (append platform kind payload es)
        ≡ (new_link platform es kind payload).entry_hash
  unfolding append new_entry
  root_sha256-new es kind payload = root_sha256-append es (new_entry platform es kind payload)

  -- The step on an entry that is not the first one.
  appended-later :
      (es : List LedgerEntry) (f g : List (Json Number)) (p q : Option String) (kind : String)
      (payload : Fields Number) (n : ℕ)
      → length es ≡ suc n
      → Reads platform es f p
      → on_kind platform (suc n) (new_link platform es kind payload) (chain_of platform es f p)
        ≡ ok (chain_of platform es g q)
      → Reads platform (append platform kind payload es) g q
  appended-later es f g p q kind payload n size reads step =
      appended platform es f g p q kind payload reads (
        ap (λ k. on_kind platform k (new_link platform es kind payload) (chain_of platform es f p))
          size
        ∙ step)

  Recording-Reads :
      (es : List LedgerEntry) (frontier : List (Json Number)) (pending : Option String)
      → Recording es frontier pending
      → Reads platform es frontier pending
  unfolding start_ledger record_observation_batch record_decision record_action_result
  Recording-Reads es frontier pending (started view commitment) =
      appended platform [] [] [] none none "EPISODE_START" (start_payload platform view commitment)
        empty-Reads (started-step platform view commitment _ _)
  Recording-Reads es frontier pending (observed observations phase before f r) =
      let (n, size) = Recording-filled before f none r in
      appended-later before f (f ++ observations) none none "OBSERVATION_BATCH"
        (observation_payload platform observations phase) n size (Recording-Reads before f none r)
        (observed-step platform n observations phase _ _ f)
  Recording-Reads es frontier pending (decided decision before f r) =
      let (n, size) = Recording-filled before f none r in
      let payload = decision_payload platform decision f in
      subst (λ h. Reads platform (append platform "DECISION" payload before) f (some h))
        (sym (root_sha256-new before "DECISION" payload))
        (appended-later before f f none
          (some (new_link platform before "DECISION" payload).entry_hash) "DECISION" payload n size
          (Recording-Reads before f none r) (decided-step platform n decision _ _ f))
  Recording-Reads es frontier pending
        (acted hash action observations done accepted candidate before f r) =
      let (n, size) = Recording-filled before f (some hash) r in
      appended-later before f (f ++ observations) (some hash) none "ACTION_RESULT"
        (action_payload platform hash action observations done accepted candidate) n size
        (Recording-Reads before f (some hash) r)
        (acted-step platform n hash action observations done accepted candidate _ _ f)

  append-filled :
      (es : List LedgerEntry) (kind : String) (payload : Fields Number)
      → map to_dict (append platform kind payload es) ≢ []
  unfolding append
  append-filled es kind payload = map-snoc-filled to_dict es (new_entry platform es kind payload)

  -- The whole ledger of an episode that was recorded in order and ended.
  recorded-reads :
      (reason : String) (semantic provenance exhausted : Bool) (es : List LedgerEntry)
      (f : List (Json Number)) (p : Option String)
      → Recording es f p
      → let full = record_terminal platform reason semantic provenance exhausted f p es in
        verify_entries platform 0 first_chain (map to_dict full)
        ≡ ok (record (chain (root_sha256 full) f none) { terminal_seen = true })
  unfolding record_terminal
  recorded-reads reason semantic provenance exhausted es f p r =
      let (n, size) = Recording-filled es f p r in
      let payload = terminal_payload platform reason semantic provenance exhausted f p in
      let final : Chain = record (chain (root_sha256 es) f none) { terminal_seen = true } in
      append-Reads platform es f p "TERMINAL" payload final (Recording-Reads es f p r) (
        ap
          (λ k.
            on_kind platform k (new_link platform es "TERMINAL" payload) (chain_of platform es f p))
          size
        ∙ terminal-step platform n reason semantic provenance exhausted p _ _ f)
      ∙ ap (λ h. ok (record final { previous_hash = h }))
          (sym (root_sha256-new es "TERMINAL" payload))

  -- An episode that is recorded in order, from its start to its terminal entry, each decision with
  -- the observations shown so far and each result with the decision that waits for it, gives a
  -- document that the verifier accepts.
  pub verify_ledger_document-recorded :
      (reason : String) (semantic provenance exhausted : Bool) (es : List LedgerEntry)
      (f : List (Json Number)) (p : Option String)
      → Recording es f p
      → verify_ledger_document platform
          (to_document (record_terminal platform reason semantic provenance exhausted f p es))
        ≡ ok tt
  unfolding verify_ledger_document to_document get require record_terminal
  verify_ledger_document-recorded reason semantic provenance exhausted es f p r =
      let full = record_terminal platform reason semantic provenance exhausted f p es in
      >>=-of-ok _ _ refl
      ∙ >>=-of-ok _ _ (
          filled_list-items (map to_dict full) (
            append-filled es "TERMINAL"
              (terminal_payload platform reason semantic provenance exhausted f p)))
      ∙ >>=-of-ok _ _ (rw (length-map to_dict full, eqb_refl (length full)) refl)
      ∙ >>=-of-ok _ _ (recorded-reads reason semantic provenance exhausted es f p r)
      ∙ >>=-of-ok _ _ refl
      ∙ rw (eq_refl (root_sha256 full)) refl
