-- ===== src/Source/DirectoryLaws.antt =====
-- A directory source that is changed while it is read: the digests that it observes.
use artifact_proof_lab.Base.{
  ℕ, suc, String, ◌≡◌, refl, ap, ◌∙◌, inl, inr, Option, none, some, List, [], ◌∷◌, Bool-cases, ◌==◌,
  eq_iff, eq_refl, subst,
}
use artifact_proof_lab.Base.Outcome.{Result, ok, raise, ok-injective, raise-ne-ok, ◌>>◌}
use artifact_proof_lab.Base.Exec.{Keeps, Keeps-bind, Keeps-pure}
use artifact_proof_lab.Paths.{canonical_relative_path}
use artifact_proof_lab.Paths.Portable.{canonical_relative_path-eq}
use artifact_proof_lab.Platform.{Platform, Bytes}
use artifact_proof_lab.Source.Limits.{SourceLimits, read_limit}
use artifact_proof_lab.Source.Disk.{Disk}
use artifact_proof_lab.Source.Directory.{
  Identity, Snapshots, lookup, Directory, check_parts, access_bytes, settle, settle, observe,
  read_known, read_path, read_bytes, recheck, read_all, read_inventory, digest_of,
  finalize_snapshot,
}

-- A property that neither a call of the system nor the first digest of a path can break.
pub record IsStable (P : Directory → Type 0) : Type 0 where
  pub tick : (s : Directory) (n : ℕ) → P s → P (record s { calls = n })
  pub extend :
      (s : Directory) (q d : String)
      → lookup q s.observed ≡ none
      → P s
      → P (record s { observed = (q, d) ∷ s.observed })

module _ (platform : Platform) (limits : SourceLimits) (disk : Disk) where
  -- Every operation of the source keeps a stable property.
  module _ {P : Directory → Type 0} (stable : IsStable P) where
    settle-stable :
        (q : String) (bytes : Bytes) (o : Option String) (s : Directory)
        → lookup q s.observed ≡ o
        → P s
        → P (settle platform limits disk q bytes o s).1
    unfolding settle
    settle-stable q bytes none s new h = stable.extend s q (platform.sha256 bytes) new h
    settle-stable q bytes (some previous) s old h =
        elim (Bool-cases (previous == platform.sha256 bytes)) [
          | inl agrees ↦ rw agrees h
          | inr differs ↦ rw differs h
        ]

    observe-stable : (q : String) (r : Result Bytes) → Keeps P (observe platform limits disk q r)
    unfolding observe
    observe-stable q (raise e) = record { after = λ s h. h }
    observe-stable q (ok bytes) = record {
      after = λ s h. settle-stable q bytes (lookup q s.observed) s refl h;
    }

    read_known-stable :
        (q : String) (max_bytes : Option ℕ) (known : Option Identity)
        → Keeps P (read_known platform limits disk q max_bytes known)
    unfolding read_known
    read_known-stable q max_bytes none = record { after = λ s h. h }
    read_known-stable q max_bytes (some expected) = record {
      after = λ s h.
          (observe-stable q _).after (record s { calls = suc s.calls })
            (stable.tick s (suc s.calls) h);
    }

    read_path-stable :
        (max_bytes : Option ℕ) (r : Result String)
        → Keeps P (read_path platform limits disk max_bytes r)
    unfolding read_path
    read_path-stable max_bytes (raise e) = record { after = λ s h. h }
    read_path-stable max_bytes (ok path) = record {
      after = λ s h. (read_known-stable path max_bytes (lookup path s.snapshots)).after s h;
    }

    pub read_bytes-stable :
        (relative : String) (max_bytes : Option ℕ)
        → Keeps P (read_bytes platform limits disk relative max_bytes)
    unfolding read_bytes
    read_bytes-stable relative max_bytes = record {
      after = (read_path-stable max_bytes (canonical_relative_path platform relative)).after;
    }

    pub recheck-stable : (message : String) → Keeps P (recheck platform limits disk message)
    unfolding recheck
    recheck-stable message = record { after = λ s h. stable.tick s (suc s.calls) h }

    pub read_all-stable : (paths : List String) → Keeps P (read_all platform limits disk paths)
    unfolding read_all
    read_all-stable [] = Keeps-pure tt
    read_all-stable (path ∷ paths) =
        Keeps-bind _ _ (read_bytes-stable path none) (λ _. read_all-stable paths)

    pub read_inventory-stable : Keeps P (read_inventory platform limits disk)
    unfolding read_inventory
    read_inventory-stable = record { after = λ s h. (read_all-stable _).after s h }

    digest_of-stable : Keeps P (digest_of platform limits disk)
    unfolding digest_of
    digest_of-stable = record { after = λ s h. h }

    pub finalize_snapshot-stable : Keeps P (finalize_snapshot platform limits disk)
    unfolding finalize_snapshot
    finalize_snapshot-stable = Keeps-bind _ _ (recheck-stable _) λ _.
        Keeps-bind _ _ read_inventory-stable
          λ _. Keeps-bind _ _ (recheck-stable _) λ _. digest_of-stable

-- The digest that was first observed of a path.
abbrev pub Observed : String → String → Directory → Type 0
Observed path digest s = lookup path s.observed ≡ some digest

pub Observed-IsStable : (p d : String) → IsStable (Observed p d)
unfolding lookup
Observed-IsStable p d = record {
  tick = λ s n h. h;
  extend = λ s q e new h. elim (Bool-cases (q == p)) [
    | inl same ↦ cc (new, h, ap (λ k. lookup k s.observed) ((eq_iff q p).0 same))
    | inr other ↦ rw other h
  ];
}

-- The inventory that was taken at the start.
abbrev pub Inventory : Snapshots → Directory → Type 0
Inventory files s = s.snapshots ≡ files

pub Inventory-IsStable : (files : Snapshots) → IsStable (Inventory files)
Inventory-IsStable files = record { tick = λ s n h. h; extend = λ s q d new h. h }

module _ (platform : Platform) (limits : SourceLimits) (disk : Disk) where
  settle-records :
      (q : String) (bytes : Bytes) (o : Option String) (s : Directory) {out : Bytes}
      → lookup q s.observed ≡ o
      → (settle platform limits disk q bytes o s).0 ≡ ok out
      → Observed q (platform.sha256 out) (settle platform limits disk q bytes o s).1
  unfolding settle lookup
  settle-records q bytes none s new h =
      rw (eq_refl q) (ap (λ b. some (platform.sha256 b)) (ok-injective h))
  settle-records q bytes (some previous) s {out} old h =
      elim (Bool-cases (previous == platform.sha256 bytes)) [
        | inl agrees ↦
            let same : ok bytes ≡ ok out = rw agrees at h in
            rw agrees (
              old
              ∙ ap some (
                  (eq_iff previous (platform.sha256 bytes)).0 agrees
                  ∙ ap platform.sha256 (ok-injective same)))
        | inr differs ↦ absurd (raise-ne-ok (rw differs at h))
      ]

  observe-records :
      (q : String) (r : Result Bytes) (s : Directory) {out : Bytes}
      → (observe platform limits disk q r s).0 ≡ ok out
      → Observed q (platform.sha256 out) (observe platform limits disk q r s).1
  unfolding observe
  observe-records q (raise e) s h = absurd (raise-ne-ok h)
  observe-records q (ok bytes) s h = settle-records q bytes (lookup q s.observed) s refl h

  read_known-records :
      (q : String) (max_bytes : Option ℕ) (known : Option Identity) (s : Directory) {out : Bytes}
      → (read_known platform limits disk q max_bytes known s).0 ≡ ok out
      → Observed q (platform.sha256 out) (read_known platform limits disk q max_bytes known s).1
  unfolding read_known
  read_known-records q max_bytes none s h = absurd (raise-ne-ok h)
  read_known-records q max_bytes (some expected) s h =
      observe-records q
        (check_parts (disk.access s.calls q).parts
          >> access_bytes expected (read_limit limits max_bytes) (disk.access s.calls q).opened)
        (record s { calls = suc s.calls }) h

  read_path-records :
      (q : String) (max_bytes : Option ℕ) (r : Result String) (s : Directory) {out : Bytes}
      → ((p : String) → r ≡ ok p → p ≡ q)
      → (read_path platform limits disk max_bytes r s).0 ≡ ok out
      → Observed q (platform.sha256 out) (read_path platform limits disk max_bytes r s).1
  unfolding read_path
  read_path-records q max_bytes (raise e) s same h = absurd (raise-ne-ok h)
  read_path-records q max_bytes (ok p) s {out} same h =
      subst
        (λ k.
          Observed k (platform.sha256 out)
            (read_known platform limits disk p max_bytes (lookup p s.snapshots) s).1)
        (same p refl) (read_known-records p max_bytes (lookup p s.snapshots) s h)

  -- A read that succeeds leaves the digest of its bytes behind.
  pub read_bytes-records :
      (q : String) (max_bytes : Option ℕ) (s : Directory) {out : Bytes}
      → (read_bytes platform limits disk q max_bytes s).0 ≡ ok out
      → Observed q (platform.sha256 out) (read_bytes platform limits disk q max_bytes s).1
  unfolding read_bytes
  read_bytes-records q max_bytes s h =
      read_path-records q max_bytes (canonical_relative_path platform q) s
        (λ p. canonical_relative_path-eq platform q p) h
