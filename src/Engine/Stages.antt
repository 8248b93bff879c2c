-- ===== src/Engine/Stages.antt =====
-- The steps of a session, by what they leave for the report.
use artifact_proof_lab.Base.{String, ◌≡◌, refl, false, or_false, some, List, [], All, ◌∷◌, ◌++◌}
use artifact_proof_lab.Base.Outcome.{ok}
use artifact_proof_lab.Base.Exec.{Exec, Triple, Triple-bind, Triple-pure, Triple-map, ◌>>=◌}
use artifact_proof_lab.Platform.{Platform}
use artifact_proof_lab.Model.{Finding, is_fail}
use artifact_proof_lab.Manifest.Types.{Manifest, CheckSpec}
use artifact_proof_lab.Source.Interface.{ArtifactSource}
use artifact_proof_lab.Source.Recorded.{Lasts, Lasts-both, Lasts-always}
use artifact_proof_lab.Checks.Declared.{run_declared_check}
use artifact_proof_lab.Checks.Lasting.{run_declared_check-Keeps}
use artifact_proof_lab.Checks.HashLaws.{failed}
use artifact_proof_lab.Engine.{
  Session, on_source, extend, note_artifact, note_snapshot, run_checks, snapshot_finding,
}

pub failed-append :
    (xs ys : List Finding) → failed (xs ++ ys) ≡ false → (failed xs ≡ false) × (failed ys ≡ false)
failed-append [] ys h = (refl, h)
failed-append (x ∷ xs) ys h =
    let (one, others) = or_false (is_fail x.status) (failed (xs ++ ys)) h in
    let (left, right) = failed-append xs ys others in (rw one left, right)

-- The manifest is noted, and `F` holds of the source unless a finding fails.
pub record Stage {S : Type 0} (digest : String) (m : Manifest) (F : S → Type 0) (t : Session S)
    : Type 0 where
  pub manifest : t.manifest_sha256 ≡ some digest
  pub name : t.artifact_name ≡ some m.name
  pub version : t.artifact_version ≡ some m.version
  pub assured : failed t.findings ≡ false → F t.source

module _ {S : Type 0} (digest : String) (m : Manifest) where
  pub Stage-note :
      {F : S → Type 0}
      → Triple
          (λ t. (t.manifest_sha256 ≡ some digest) × F t.source)
          (note_artifact m)
          (λ _. Stage digest m F)
  unfolding note_artifact
  Stage-note = record {
    run =
        λ t p a eq. record { manifest = p.0; name = refl; version = refl; assured = λ clean. p.1 };
  }

  pub Stage-extend :
      {F : S → Type 0} (new : List Finding)
      → Triple
          (Stage digest m F)
          (extend new)
          (λ _. Stage digest m (λ s. F s × (failed new ≡ false)))
  unfolding extend
  Stage-extend new = record {
    run = λ t stage a eq. record {
      manifest = stage.manifest;
      name = stage.name;
      version = stage.version;
      assured = λ clean.
          let (old, fresh) = failed-append t.findings new clean in (stage.assured old, fresh);
    };
  }

  pub Stage-on_source :
      {A : Type 0} {F : S → Type 0} {Q : A → S → Type 0} (step : Exec S A)
      → Triple F step Q
      → Triple (Stage digest m F) (on_source step) (λ a. Stage digest m (Q a))
  unfolding on_source
  Stage-on_source step triple = record {
    run = λ t stage a eq. record {
      manifest = stage.manifest;
      name = stage.name;
      version = stage.version;
      assured = λ clean. triple.run t.source (stage.assured clean) a eq;
    };
  }

  pub Stage-map :
      {F G : S → Type 0} (t : Session S)
      → ((s : S) → F s → G s)
      → Stage digest m F t
      → Stage digest m G t
  Stage-map t h stage = record {
    manifest = stage.manifest;
    name = stage.name;
    version = stage.version;
    assured = λ clean. h t.source (stage.assured clean);
  }

  -- The last two steps.
  pub Stage-close :
      {F : S → Type 0} (snapshot : String)
      → Triple
          (Stage digest m F)
          (note_snapshot snapshot >>= λ _. extend (snapshot_finding snapshot ∷ []))
          (λ _ t. Stage digest m F t × (t.source_snapshot_sha256 ≡ some snapshot))
  unfolding note_snapshot extend ◌>>=◌
  Stage-close snapshot = record {
    run = λ t stage a eq. (
      record {
        manifest = stage.manifest;
        name = stage.name;
        version = stage.version;
        assured = λ clean.
            stage.assured (failed-append t.findings (snapshot_finding snapshot ∷ []) clean).0;
      },
      refl,
    );
  }

module _ {S : Type 0} (platform : Platform) (source : ArtifactSource S) where
  abbrev RunAs : String → CheckSpec → Finding → Type 0
  RunAs profile check found =
      (s : S) × ((run_declared_check platform source profile check s).0 ≡ ok found)

  -- A declared check was run against the source, in some state of it, and did not fail.
  abbrev pub Ran : String → CheckSpec → Type 0
  Ran profile check = (found : Finding) × RunAs profile check found × (is_fail found.status ≡ false)

  Stage-run_one :
      {F : S → Type 0} (digest : String) (m : Manifest) (profile : String) (check : CheckSpec)
      → Lasts source F
      → Triple
          (Stage digest m F)
          (on_source (run_declared_check platform source profile check))
          (λ found. Stage digest m (λ s. F s × RunAs profile check found))
  Stage-run_one digest m profile check lasts =
      Stage-on_source digest m (run_declared_check platform source profile check) (record {
        run = λ s h found eq.
            ((run_declared_check-Keeps platform source lasts profile check).after s h, (s, eq));
      })

  pub Stage-run_checks :
      (digest : String) (m : Manifest) (profile : String) (checks : List CheckSpec) {F : S → Type 0}
      → Lasts source F
      → Triple
          (Stage digest m F)
          (run_checks platform source profile checks)
          (λ _. Stage digest m (λ s. F s × All (Ran profile) checks))
  unfolding run_checks
  Stage-run_checks digest m profile [] lasts =
      Triple-pure tt λ t stage. Stage-map digest m t (λ s h. (h, tt)) stage
  Stage-run_checks digest m profile (check ∷ checks) {F} lasts =
      Triple-bind _ _ (Stage-run_one digest m profile check lasts) λ found.
        Triple-bind _ _
          (Triple-map {R = λ _. Stage digest m (λ s. F s × Ran profile check)} (extend (found ∷ []))
            (λ _ t.
              Stage-map digest m t
                λ s h. (h.0.0, (found, h.0.1, (or_false (is_fail found.status) false h.1).0)))
            (Stage-extend digest m (found ∷ [])))
          λ _.
            Triple-map (run_checks platform source profile checks)
              (λ _ t. Stage-map digest m t λ s h. (h.0.0, (h.0.1, h.1)))
              (Stage-run_checks digest m profile checks
                (Lasts-both lasts (Lasts-always (Ran profile check))))
