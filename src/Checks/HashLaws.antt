-- ===== src/Checks/HashLaws.antt =====
-- What the hash findings say of the files that the source has read.
use artifact_proof_lab.Base.{
  String, ◌≡◌, none, subst, inl, inr, Bool, false, ◌&&◌, Bool-cases, List, [], ◌∷◌, All, any, mem,
  ◌==◌, eq_iff, arith, or_false,
}
use Prim.Native.String.{compare}
use text.Mathlib.Text.{is_le}
use artifact_proof_lab.Base.Exec.{Triple, Triple-bind, Triple-pure, Triple-also}
use artifact_proof_lab.Platform.{Platform}
use artifact_proof_lab.Model.{Finding, is_fail}
use artifact_proof_lab.Manifest.Types.{FileSpec, Manifest}
use artifact_proof_lab.Source.Interface.{ArtifactSource, sha256}
use artifact_proof_lab.Source.Recorded.{Lasts, Lasts-when, Lasts-both, Recorded}
use artifact_proof_lab.Checks.Identity.{
  insert_file, sorted_files, hash_finding, check_hash, check_hashes, verify_file_hashes,
}
use artifact_proof_lab.Checks.Lasting.{check_hashes-Keeps}

abbrev pub failed : List Finding → Bool
failed found = any (λ f. is_fail f.status) found

-- The file is exempt: it is mutable and the profile is "live".
abbrev pub exempt : String → FileSpec → Bool
exempt profile spec = profile == "live" && spec.mutable

hash_finding-agrees :
    (profile path : String) (spec : FileSpec) (observed : String)
    → is_fail (hash_finding profile (path, spec) observed).status ≡ false
    → exempt profile spec ≡ false
    → observed ≡ spec.sha256
unfolding hash_finding
hash_finding-agrees profile path spec observed h frozen =
    elim (Bool-cases (observed == spec.sha256)) [
      | inl same ↦ (eq_iff observed spec.sha256).0 same
      | inr other ↦ ground arith
    ]

module _ {κ} (P : String × FileSpec → Type κ) where
  All-insert_file :
      (file : String × FileSpec) (files : List (String × FileSpec))
      → All P (insert_file file files)
      → P file × All P files
  unfolding insert_file
  All-insert_file file [] h = h
  All-insert_file file (other ∷ files) h = elim (Bool-cases (is_le (compare file.0 other.0))) [
    | inl first ↦ rw first at h
    | inr after ↦
        let later : P other × All P (insert_file file files) = rw after at h in
        let (here, rest) = All-insert_file file files later.1 in (here, (later.0, rest))
  ]

  All-sorted_files : (files : List (String × FileSpec)) → All P (sorted_files files) → All P files
  unfolding sorted_files
  All-sorted_files [] h = tt
  All-sorted_files (file ∷ files) h =
      let (here, rest) = All-insert_file file (sorted_files files) h in
      (here, All-sorted_files files rest)

module _ {S : Type 0} (platform : Platform) (source : ArtifactSource S)
    (recorded : Recorded platform source) where
  -- The source has settled on the declared digest, unless the file is exempt.
  abbrev pub Vouched : String → String × FileSpec → S → Type 0
  Vouched profile (path, spec) s = exempt profile spec ≡ false → recorded.Seen path spec.sha256 s

  Vouched-Lasts :
      (profile : String) (file : String × FileSpec) → Lasts source (Vouched profile file)
  Vouched-Lasts profile (path, spec) =
      Lasts-when (exempt profile spec ≡ false) (recorded.seen_lasts path spec.sha256)

  pub All-Vouched-Lasts :
      (profile : String) (files : List (String × FileSpec))
      → Lasts source (λ s. All (λ file. Vouched profile file s) files)
  All-Vouched-Lasts profile [] = record {
    read = λ q max_bytes. record { after = λ s h. tt };
    finalize = record { after = λ s h. tt };
  }
  All-Vouched-Lasts profile (file ∷ files) =
      Lasts-both (Vouched-Lasts profile file) (All-Vouched-Lasts profile files)

  check_hash-Vouched :
      (actual : List String) (profile : String) (file : String × FileSpec)
      → Triple
          (λ _. Unit {0})
          (check_hash platform source actual profile file)
          (λ found s. is_fail found.status ≡ false → Vouched profile file s)
  unfolding check_hash sha256
  check_hash-Vouched actual profile (path, spec) = elim (Bool-cases (mem path actual)) [
    | inl there ↦ rw there (
        Triple-bind _ _
          (Triple-bind {Q = λ bytes s. recorded.Seen path (platform.sha256 bytes) s} _ _
            (record { run = λ s h bytes eq. recorded.seen path none s eq })
            (λ bytes.
              Triple-pure {Q = λ d s. recorded.Seen path d s} (platform.sha256 bytes) (λ s h. h)))
          λ observed. Triple-pure _ λ s h clean frozen.
            subst (λ d. recorded.Seen path d s)
              (hash_finding-agrees profile path spec observed clean frozen) h)
    | inr lost ↦ rw lost (Triple-pure _ λ s h clean. cc)
  ]

  check_hashes-Vouched :
      (actual : List String) (profile : String) (files : List (String × FileSpec))
      → Triple
          (λ _. Unit {0})
          (check_hashes platform source actual profile files)
          (λ found s. failed found ≡ false → All (λ file. Vouched profile file s) files)
  unfolding check_hashes
  check_hashes-Vouched actual profile [] = Triple-pure [] λ s h clean. tt
  check_hashes-Vouched actual profile (file ∷ files) =
      Triple-bind _ _ (check_hash-Vouched actual profile file) λ first.
        Triple-bind _ _
          (Triple-also (check_hashes platform source actual profile files)
            (check_hashes-Keeps platform source
              (Lasts-when (is_fail first.status ≡ false) (Vouched-Lasts profile file)) actual
              profile files)
            (check_hashes-Vouched actual profile files))
          λ rest.
            Triple-pure _ λ s h clean.
              let (one, others) = or_false _ (failed rest) clean in (h.0 one, h.1 others)

  -- When no hash finding fails, the source has settled on the declared digest of every file that
  -- is not exempt.
  pub verify_file_hashes-Vouched :
      (actual : List String) (m : Manifest) (profile : String)
      → Triple
          (λ _. Unit {0})
          (verify_file_hashes platform source actual m profile)
          (λ found s. failed found ≡ false → All (λ file. Vouched profile file s) m.files)
  unfolding verify_file_hashes
  verify_file_hashes-Vouched actual m profile = record {
    run = λ s h found eq clean.
        All-sorted_files
          (λ file.
            Vouched profile file
              (check_hashes platform source actual profile (sorted_files m.files) s).1)
          m.files
          ((check_hashes-Vouched actual profile (sorted_files m.files)).run s tt found eq clean);
  }
