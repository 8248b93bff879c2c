-- ===== src/Source/Reads.antt =====
-- What the reads of one session of a directory source agree on, and what ends it.
use artifact_proof_lab.Base.{
  ℕ, suc, true, String, ◌≡◌, refl, sym, subst, inl, inr, ◌∙◌, Option, none, some-eq, List, [], ◌∷◌,
  map, Holds, Holds-sorted, sorted,
}
use artifact_proof_lab.Base.Outcome
use artifact_proof_lab.Base.Outcome.{
  Result, ok, require, source_error, ◌>>=◌, ok-injective, Ensures-ok, Ensures-require,
}
use artifact_proof_lab.Base.Exec
use artifact_proof_lab.Base.Exec.{Exec, Keeps, >>=-eq-ok}
use artifact_proof_lab.Platform.{Platform, Bytes}
use artifact_proof_lab.Source.Limits.{SourceLimits}
use artifact_proof_lab.Source.Disk.{Disk}
use artifact_proof_lab.Source.Directory.{
  Snapshots, Directory, read_bytes, recheck, read_all, read_inventory, digest_of, finalize_snapshot,
  snapshot_digest, take_inventory, same_snapshots,
}
use artifact_proof_lab.Source.DirectoryLaws.{
  IsStable, read_bytes-stable, finalize_snapshot-stable, Observed, Observed-IsStable, Inventory,
  Inventory-IsStable, read_bytes-records, read_all-stable, read_inventory-stable,
}

module _ (platform : Platform) (limits : SourceLimits) (disk : Disk) where
  -- A session: the state that any reads and finalizations lead to, whether they fail or not.
  pub data Later (s : Directory) : Directory → Type 0 where
    now : Later s s
    read :
        (t : Directory) (relative : String) (max_bytes : Option ℕ)
        → Later s t
        → Later s (read_bytes platform limits disk relative max_bytes t).1
    finalized : (t : Directory) → Later s t → Later s (finalize_snapshot platform limits disk t).1

  pub Later-keeps : {P : Directory → Type 0} {s t : Directory} → IsStable P → Later s t → P s → P t
  Later-keeps stable now h = h
  Later-keeps stable (read t relative max_bytes l) h =
      (read_bytes-stable platform limits disk stable relative max_bytes).after t
        (Later-keeps stable l h)
  Later-keeps stable (finalized t l) h =
      (finalize_snapshot-stable platform limits disk stable).after t (Later-keeps stable l h)

  -- Two reads of one path that both succeed return bytes with the same digest, whatever limits
  -- they have, whatever happens to the files in between, and whatever else the session reads.
  pub reads_agree :
      (path : String) (first second : Option ℕ) (s t : Directory) (a b : Bytes)
      → (read_bytes platform limits disk path first s).0 ≡ ok a
      → Later (read_bytes platform limits disk path first s).1 t
      → (read_bytes platform limits disk path second t).0 ≡ ok b
      → platform.sha256 a ≡ platform.sha256 b
  reads_agree path first second s t a b ha l hb =
      let stable = Observed-IsStable path (platform.sha256 a) in
      let before : Observed path (platform.sha256 a) t =
        Later-keeps stable l (read_bytes-records platform limits disk path first s ha) in
      let kept = (read_bytes-stable platform limits disk stable path second).after t before in
      some-eq (sym kept ∙ read_bytes-records platform limits disk path second t hb)

  read_all-records :
      (paths : List String) (s : Directory)
      → (read_all platform limits disk paths s).0 ≡ ok tt
      → (path : String) → Holds path paths
      → (d : String) × Observed path d (read_all platform limits disk paths s).1
  unfolding read_all
  read_all-records [] s h path member = absurd member
  read_all-records (q ∷ paths) s h path member =
      let step = read_bytes platform limits disk q none in
      let (bytes, eq0, eq1, eq) = >>=-eq-ok step (λ _. read_all platform limits disk paths) s h in
      elim member [
        | inl same ↦ (
          platform.sha256 bytes,
          subst (Observed path (platform.sha256 bytes)) (sym eq) (
              (read_all-stable platform limits disk (Observed-IsStable path (platform.sha256 bytes))
                  paths).after
                (step s).1
                (subst (λ k. Observed k (platform.sha256 bytes) (step s).1) same
                  (read_bytes-records platform limits disk q none s eq0))),
        )
        | inr later ↦
            let (d, observed) = read_all-records paths (step s).1 eq1 path later in
            (d, subst (Observed path d) (sym eq) observed)
      ]

  -- The n-th answer of the system has the files and identities that the source was opened with.
  abbrev pub Unchanged : Snapshots → ℕ → Type 0
  Unchanged snapshots n =
      (files : Snapshots) × (take_inventory platform limits (disk.walk n) ≡ ok files)
      × (same_snapshots files snapshots ≡ true)

  recheck-Unchanged :
      (message : String) (s : Directory)
      → (recheck platform limits disk message s).0 ≡ ok tt
      → Unchanged s.snapshots s.calls
  unfolding recheck
  recheck-Unchanged message s h =
      let (files, taken, same) =
        Outcome.>>=-eq-ok (take_inventory platform limits (disk.walk s.calls))
          (λ files. require (same_snapshots files s.snapshots) (source_error message)) h in
      (files, taken, Ensures-ok (Ensures-require _ (source_error message)) same)

  -- What a finalization from `s` to `t` that returns `digest` establishes.
  abbrev pub Settled : Directory → String → Directory → Type 0
  Settled s digest t =
      (t.snapshots ≡ s.snapshots)
      × Unchanged s.snapshots s.calls
      × ((n : ℕ) × (t.calls ≡ suc n) × Unchanged s.snapshots n)
      × ((path : String)
          → Holds path (map (λ e. e.0) s.snapshots)
          → (d : String) × Observed path d t)
      × (digest ≡ snapshot_digest platform "directory" t.observed)

  -- A finalization that succeeds rests on two further inventories of the tree, its first and its
  -- last call, both with the files and identities that the source was opened with, and on a read
  -- of every such file: each has an observed digest then, the inventory is kept, and what is
  -- returned is the digest of all the observations.
  pub finalize_snapshot-Settled :
      (s : Directory) (digest : String)
      → (finalize_snapshot platform limits disk s).0 ≡ ok digest
      → Settled s digest (finalize_snapshot platform limits disk s).1
  unfolding finalize_snapshot read_inventory digest_of recheck
  finalize_snapshot-Settled s digest h =
      let before : String = "artifact directory changed during validation" in
      let after : String = "artifact directory changed during snapshot finalization" in
      let first = recheck platform limits disk before in
      let reads = read_inventory platform limits disk in
      let second = recheck platform limits disk after in
      let final = digest_of platform limits disk in
      let (_, eq0, h1, e1) =
        >>=-eq-ok first (λ _. Exec.◌>>=◌ reads λ _. Exec.◌>>=◌ second λ _. final) s h in
      let (_, eq2, h2, e2) = >>=-eq-ok reads (λ _. Exec.◌>>=◌ second λ _. final) (first s).1 h1 in
      let (_, eq3, h3, e3) = >>=-eq-ok second (λ _. final) (reads (first s).1).1 h2 in
      let kept : Inventory s.snapshots (reads (first s).1).1 =
        (read_inventory-stable platform limits disk (Inventory-IsStable s.snapshots)).after
          (first s).1 refl in
      subst (Settled s digest) (sym (e1 ∙ e2 ∙ e3)) (
        kept,
        recheck-Unchanged before s eq0,
        (
          (reads (first s).1).1.calls,
          refl,
          subst (λ files. Unchanged files (reads (first s).1).1.calls) kept
              (recheck-Unchanged after (reads (first s).1).1 eq3),
        ),
        (λ path member.
            read_all-records (sorted (map (λ e. e.0) s.snapshots)) (first s).1 eq2 path
              ((Holds-sorted path (map (λ e. e.0) s.snapshots)).1 member)),
        ok-injective (sym h3),
      )
