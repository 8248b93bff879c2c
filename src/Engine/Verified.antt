-- ===== src/Engine/Verified.antt =====
-- What a passing report of `verify_artifact` says of the artifact.
use artifact_proof_lab.Base.{◌*◌, String, ◌≡◌, refl, subst, false, some, List, [], All, ◌∷◌}
use artifact_proof_lab.Base.Outcome.{ok}
use artifact_proof_lab.Base.Exec.{Triple, Triple-bind, Triple-map, Triple-also, Triple-lift}
use artifact_proof_lab.Platform.{Platform, Bytes}
use artifact_proof_lab.Model.{Finding}
use artifact_proof_lab.Manifest.Types.{Manifest}
use artifact_proof_lab.Manifest.Parse.{parse_manifest}
use artifact_proof_lab.Source.Interface.{ArtifactSource}
use artifact_proof_lab.Source.Recorded.{Lasts, Lasts-both, Lasts-always, Recorded}
use artifact_proof_lab.Checks.Identity.{verify_manifest_anchor, verify_coverage, verify_file_hashes}
use artifact_proof_lab.Checks.Lasting.{verify_file_hashes-Keeps}
use artifact_proof_lab.Checks.HashLaws.{
  failed, Vouched, All-Vouched-Lasts, verify_file_hashes-Vouched,
}
use artifact_proof_lab.Engine.{
  Request, Session, on_source, extend, note_manifest, cover, hash_files, inspect, validate,
}
use artifact_proof_lab.Engine.Stages.{
  Stage, Stage-note, Stage-extend, Stage-on_source, Stage-map, Stage-close, Stage-run_checks, Ran,
  failed-append,
}

module _ {S : Type 0} (platform : Platform) (source : ArtifactSource S)
    (recorded : Recorded platform source) where
  abbrev pub AllVouched : String → Manifest → S → Type 0
  AllVouched profile m s = All (λ file. Vouched platform source recorded profile file s) m.files

  Stage-cover :
      {F : S → Type 0} (digest : String) (m : Manifest) (canonical : String) (files : List String)
      → ((s : S) → F s → source.list_files s ≡ files)
      → Triple (Stage digest m F) (cover platform source m canonical) (λ _.
        Stage digest m (λ s. F s × (failed (verify_coverage files m canonical ∷ []) ≡ false)))
  unfolding cover extend
  Stage-cover digest m canonical files listed = record {
    run = λ t stage a eq. record {
      manifest = stage.manifest;
      name = stage.name;
      version = stage.version;
      assured = λ clean.
          let (old, fresh) =
            failed-append t.findings (verify_coverage (source.list_files t.source) m canonical ∷ [])
              clean in
          (
            stage.assured old,
            subst (λ fs. failed (verify_coverage fs m canonical ∷ []) ≡ false)
                (listed t.source (stage.assured old)) fresh,
          );
    };
  }

  Stage-hash_files :
      {F : S → Type 0} (digest : String) (m : Manifest) (profile : String)
      → Lasts source F
      → Triple
          (Stage digest m F)
          (hash_files platform source m profile)
          (λ found. Stage digest m (λ s. F s × (failed found ≡ false → AllVouched profile m s)))
  unfolding hash_files
  Stage-hash_files digest m profile lasts = record {
    run = λ t.
        let files = source.list_files t.source in
        let step = verify_file_hashes platform source files m profile in
        (Stage-on_source digest m step (
            Triple-also step (verify_file_hashes-Keeps platform source lasts files m profile)
              (verify_file_hashes-Vouched platform source recorded files m profile))).run
          t;
  }

  -- A finalization returned the digest and led to the state.
  abbrev pub Finalized : String → S → Type 0
  Finalized snapshot s =
      (u : S) × ((source.finalize_snapshot u).0 ≡ ok snapshot)
      × (s ≡ (source.finalize_snapshot u).1)

  -- The manifest was read, and the files are those of the start.
  abbrev Opened : String → Bytes → List String → S → Type 0
  Opened canonical bytes files s =
      recorded.Seen canonical (platform.sha256 bytes) s × (source.list_files s ≡ files)

  module _ (request : Request) (canonical : String) (bytes : Bytes) (m : Manifest)
      (files : List String) where
    abbrev anchor : List Finding
    anchor =
        verify_manifest_anchor platform bytes request.manifest_sha256 request.require_trust_anchor
        ∷ []

    abbrev Anchored : S → Type 0
    Anchored s = Opened canonical bytes files s × (failed anchor ≡ false)

    abbrev Covered : S → Type 0
    Covered s = Anchored s × (failed (verify_coverage files m canonical ∷ []) ≡ false)

    abbrev Hashed : S → Type 0
    Hashed s = Covered s × AllVouched request.profile m s

    -- All that an inspection establishes of its last state.
    abbrev pub Checked : S → Type 0
    Checked s = Hashed s × All (Ran platform source request.profile) m.checks

    Covered-Lasts : Lasts source Covered
    Covered-Lasts =
        Lasts-both
          (Lasts-both
            (Lasts-both (recorded.seen_lasts canonical (platform.sha256 bytes))
              (recorded.files_last files))
            (Lasts-always (failed anchor ≡ false)))
          (Lasts-always (failed (verify_coverage files m canonical ∷ []) ≡ false))

    Hashed-Lasts : Lasts source Hashed
    Hashed-Lasts =
        Lasts-both Covered-Lasts
          (All-Vouched-Lasts platform source recorded request.profile m.files)

    Checked-Lasts : Lasts source Checked
    Checked-Lasts =
        Lasts-both Hashed-Lasts (Lasts-always (All (Ran platform source request.profile) m.checks))

    abbrev pub Outcome : Session S → Type 0
    Outcome t =
        (snapshot : String) × Stage (platform.sha256 bytes) m
          (λ s. Checked s × Finalized snapshot s) t
        × (t.source_snapshot_sha256 ≡ some snapshot)

    finalize-Finalized :
        Triple Checked source.finalize_snapshot (λ snapshot s. Checked s × Finalized snapshot s)
    finalize-Finalized = record {
      run = λ s h snapshot eq. (Checked-Lasts.finalize.after s h, (s, eq, refl));
    }

    inspect-Outcome :
        Triple
          (λ t.
            (t.manifest_sha256 ≡ some (platform.sha256 bytes))
            × Opened canonical bytes files t.source)
          (inspect platform source request canonical bytes m)
          (λ _. Outcome)
    unfolding inspect
    inspect-Outcome =
        let d = platform.sha256 bytes in
        Triple-bind _ _ (Stage-note d m) λ _. Triple-bind _ _ (Stage-extend d m anchor) λ _.
          Triple-bind _ _ (Stage-cover d m canonical files λ s h. h.0.1) λ _.
            Triple-bind _ _ (Stage-hash_files d m request.profile Covered-Lasts) λ found.
              Triple-bind _ _
                (Triple-map {R = λ _. Stage d m Hashed} (extend found)
                  (λ _ t. Stage-map d m t λ s h. (h.0.0, h.0.1 h.1)) (Stage-extend d m found))
                λ _.
                  Triple-bind _ _
                    (Stage-run_checks platform source d m request.profile m.checks Hashed-Lasts)
                    λ _.
                      Triple-bind _ _
                        (Stage-on_source d m source.finalize_snapshot finalize-Finalized)
                        λ snapshot.
                          Triple-map _ (λ _ t h. (snapshot, h.0, h.1)) (Stage-close d m snapshot)

  pub validate-Outcome :
      (request : Request) (canonical : String) (files : List String)
      → Triple
          (λ t. source.list_files t.source ≡ files)
          (validate platform source request canonical)
          (λ _ t.
            (bytes : Bytes) × (m : Manifest) × (parse_manifest platform canonical bytes ≡ ok m)
            × Outcome request canonical bytes m files t)
  unfolding validate on_source note_manifest
  validate-Outcome request canonical files =
      Triple-bind {Q = λ bytes t. Opened canonical bytes files t.source} _ _
        (record {
          run = λ t listed bytes eq. (
            recorded.seen canonical (some (1024 * 1024)) t.source eq,
            ((recorded.files_last files).read canonical (some (1024 * 1024))).after t.source listed,
          );
        })
        λ bytes.
          Triple-bind
            {Q = λ _ t.
              (t.manifest_sha256 ≡ some (platform.sha256 bytes))
              × Opened canonical bytes files t.source}
            _ _ (record { run = λ t opened a eq. (refl, opened) })
            λ _.
              Triple-bind
                {Q = λ m t.
                  ((t.manifest_sha256 ≡ some (platform.sha256 bytes))
                    × Opened canonical bytes files t.source)
                  × (parse_manifest platform canonical bytes ≡ ok m)}
                _ _ (Triple-lift _ λ m t parsed opened. (opened, parsed))
                λ m. record {
                  run = λ t h a eq. (
                    bytes,
                    m,
                    h.1,
                    (inspect-Outcome request canonical bytes m files).run t h.0 a eq,
                  );
                }
