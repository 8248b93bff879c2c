-- ===== src/Engine/Passing.antt =====
-- A report of `verify_artifact` that passes: what it says of the request and the artifact.
use artifact_proof_lab.Base.{
  String, ◌≡◌, ◌≢◌, refl, sym, ap, ◌∙◌, inl, inr, Bool, true, false, not, or_false, Option, none,
  some, some-eq, Option-cases, List, [], All, ◌∷◌, ◌++◌, arith, Bool-cases, ◌==◌, eq_iff,
}
use artifact_proof_lab.Base.Outcome.{Result, ok, raise, ok-injective, raise-ne-ok, >>=-eq-ok}
use artifact_proof_lab.Platform.{Platform, Bytes}
use artifact_proof_lab.Paths.{canonical_relative_path}
use artifact_proof_lab.Model.{fail, Finding, Report, is_fail, passed}
use artifact_proof_lab.Manifest.Types.{Manifest}
use artifact_proof_lab.Manifest.Parse.{parse_manifest}
use artifact_proof_lab.Source.Interface.{ArtifactSource}
use artifact_proof_lab.Source.Recorded.{Recorded}
use artifact_proof_lab.Checks.Identity.{verify_manifest_anchor, verify_coverage}
use artifact_proof_lab.Checks.IdentityLaws.{anchor_verdict, coverage_verdict, Present, Listed}
use artifact_proof_lab.Checks.HashLaws.{failed}
use artifact_proof_lab.Engine.{
  Request, Session, start, caught, contract_finding, prepare, extend, report, finish, run_opened,
  run_prepared, verify_artifact, validate,
}
use artifact_proof_lab.Engine.Stages.{Ran, failed-append}
use artifact_proof_lab.Engine.Verified.{AllVouched, Finalized, validate-Outcome}

not-failed : (found : List Finding) → not (failed found) ≡ true → failed found ≡ false
not-failed found h = ground arith

contract_fails :
    (found : List Finding) (message : String)
    → ¬ (failed (found ++ contract_finding message ∷ []) ≡ false)
contract_fails found message h = cc ((failed-append found (contract_finding message ∷ []) h).1)

-- A report that passes comes from a run without exceptions, and no finding of it fails.
finish-passed :
    {S : Type 0} (request : Request) (t : Session S) (r : Report) (result : Result (Unit {0}))
    → finish request t result ≡ ok r
    → passed r ≡ true
    → (result ≡ ok tt) × (r ≡ report request t) × (failed t.findings ≡ false)
unfolding finish report extend passed
finish-passed request t r (ok _) h pass =
    let same = ok-injective h in (refl, sym same, not-failed t.findings (rw (sym same) at pass))
finish-passed request t r (raise e) h pass = elim (Option-cases (caught e)) [
  | inl other ↦ absurd (raise-ne-ok (rw (other, finish) at h))
  | inr (message, is_proof_error) ↦
      let same : ok (report request (extend (contract_finding message ∷ []) t).1) ≡ ok r =
        rw (is_proof_error, finish) at h in
      absurd (
        contract_fails t.findings message (
          not-failed (t.findings ++ contract_finding message ∷ [])
            (rw (sym (ok-injective same)) at pass)))
]

module _ {S : Type 0} (platform : Platform) (source : ArtifactSource S) where
  run_opened-passed :
      (request : Request) (canonical : String) (opened : Result S) (r : Report)
      → run_opened platform source request canonical opened ≡ ok r
      → passed r ≡ true
      → (s : S) × (opened ≡ ok s)
        × (let (result, t) = validate platform source request canonical (start s) in
            (result ≡ ok tt) × (r ≡ report request t) × (failed t.findings ≡ false))
  unfolding run_opened
  run_opened-passed request canonical (raise e) r h pass =
      absurd (raise-ne-ok (finish-passed request (start tt) r (raise e) h pass).0)
  run_opened-passed request canonical (ok s) r h pass =
      let (result, t) = validate platform source request canonical (start s) in
      (s, refl, finish-passed request t r result h pass)

  run_prepared-passed :
      (request : Request) (opened : Result S) (prepared : Result String) (r : Report)
      → run_prepared platform source request opened prepared ≡ ok r
      → passed r ≡ true
      → (canonical : String) × (prepared ≡ ok canonical)
        × (run_opened platform source request canonical opened ≡ ok r)
  unfolding run_prepared
  run_prepared-passed request opened (raise e) r h pass =
      absurd (raise-ne-ok (finish-passed request (start tt) r (raise e) h pass).0)
  run_prepared-passed request opened (ok canonical) r h pass = (canonical, refl, h)

single : (f : Finding) → failed (f ∷ []) ≡ false → f.status ≢ fail
single f h e = cc (ap is_fail e, (or_false (is_fail f.status) false h).0)

-- What the anchor finding says when it does not fail.
anchored :
    (platform : Platform) (bytes : Bytes) (expected : Option String) (required : Bool)
    → failed (verify_manifest_anchor platform bytes expected required ∷ []) ≡ false
    → ((d : String) → expected ≡ some d → d ≡ platform.sha256 bytes)
      × (required ≡ true → expected ≡ some (platform.sha256 bytes))
anchored platform bytes none required h =
    let anchor = verify_manifest_anchor platform bytes none required in
    let (_, back) = (anchor_verdict platform bytes none required).1 in
    (λ d e. cc, λ e. absurd (single anchor h (back (inr (refl, e)))))
anchored platform bytes (some d) required h =
    let anchor = verify_manifest_anchor platform bytes (some d) required in
    let (_, back) = (anchor_verdict platform bytes (some d) required).1 in
    let same : d ≡ platform.sha256 bytes = elim (Bool-cases (d == platform.sha256 bytes)) [
      | inl matches ↦ (eq_iff d (platform.sha256 bytes)).0 matches
      | inr other ↦ absurd (
          single anchor h
            (back (inl (d, refl, λ e. cc (other, (eq_iff d (platform.sha256 bytes)).1 e)))))
    ] in
    (λ e there. sym (some-eq there) ∙ same, λ _. ap some same)

covered :
    (files : List String) (m : Manifest) (canonical : String)
    → failed (verify_coverage files m canonical ∷ []) ≡ false
    → Present files m × (m.complete_coverage ≡ true → Listed files m canonical)
unfolding verify_coverage
covered files m canonical h = (coverage_verdict files m canonical).0 (ground arith)

-- `prepare` gives the canonical path of the manifest.
prepare-eq :
    (platform : Platform) (request : Request) (canonical : String)
    → prepare platform request ≡ ok canonical
    → canonical_relative_path platform request.manifest_path ≡ ok canonical
unfolding prepare
prepare-eq platform request canonical h =
    let (_, _, h1) = >>=-eq-ok _ _ h in
    let (path, eq, h2) = >>=-eq-ok _ _ h1 in let (_, _, h3) = >>=-eq-ok _ _ h2 in eq ∙ h3

module _ {S : Type 0} (platform : Platform) (source : ArtifactSource S)
    (recorded : Recorded platform source) where
  -- What a passing report says. `last` is the state of the source after its finalization.
  pub record Verified (request : Request) (s : S) (r : Report) : Type 0 where
    pub canonical : String
    pub manifest_path : canonical_relative_path platform request.manifest_path ≡ ok canonical
    pub bytes : Bytes
    pub manifest : Manifest
    pub parsed : parse_manifest platform canonical bytes ≡ ok manifest
    pub manifest_sha256 : r.manifest_sha256 ≡ some (platform.sha256 bytes)
    pub artifact_name : r.artifact_name ≡ some manifest.name
    pub artifact_version : r.artifact_version ≡ some manifest.version
    pub anchor :
        ((d : String) → request.manifest_sha256 ≡ some d → d ≡ platform.sha256 bytes)
        × (request.require_trust_anchor ≡ true
            → request.manifest_sha256 ≡ some (platform.sha256 bytes))
    pub coverage :
        Present (source.list_files s) manifest
        × (manifest.complete_coverage ≡ true → Listed (source.list_files s) manifest canonical)
    pub checks : All (Ran platform source request.profile) manifest.checks
    pub last : S
    pub same_files : source.list_files last ≡ source.list_files s
    pub snapshot : String
    pub source_snapshot_sha256 : r.source_snapshot_sha256 ≡ some snapshot
    pub finalized : Finalized platform source recorded snapshot last
    pub seen : recorded.Seen canonical (platform.sha256 bytes) last
    pub hashes : AllVouched platform source recorded request.profile manifest last

  -- A report that passes vouches for the artifact: the manifest was parsed from bytes whose digest
  -- the report gives and the supplied anchor is, coverage holds of the files that the source
  -- listed at the start, every declared check ran without failing, the source was finalized with
  -- the reported digest, and in the end it has settled on the declared digest of every declared
  -- file that is not exempt, and on the reported digest for the manifest.
  pub passed-Verified :
      (request : Request) (opened : Result S) (r : Report)
      → verify_artifact platform source request opened ≡ ok r
      → passed r ≡ true
      → (s : S) × (opened ≡ ok s) × Verified request s r
  unfolding verify_artifact report
  passed-Verified request opened r h pass =
      let (canonical, prepared, h1) =
        run_prepared-passed platform source request opened (prepare platform request) r h pass in
      let (s, is_open, ended) =
        run_opened-passed platform source request canonical opened r h1 pass in
      let (result, is_report, clean) = ended in
      let t = (validate platform source request canonical (start s)).1 in
      let (bytes, m, parsed, outcome) =
        (validate-Outcome platform source recorded request canonical (source.list_files s)).run
          (start s) refl tt result in
      let (snapshot, stage, digest) = outcome in
      let (checked, finalized) = stage.assured clean in
      let ((((opening, anchor), coverage), hashes), checks) = checked in
      (
        s,
        is_open,
        record {
          canonical = canonical;
          manifest_path = prepare-eq platform request canonical prepared;
          bytes = bytes;
          manifest = m;
          parsed = parsed;
          manifest_sha256 = ap (λ k. k.manifest_sha256) is_report ∙ stage.manifest;
          artifact_name = ap (λ k. k.artifact_name) is_report ∙ stage.name;
          artifact_version = ap (λ k. k.artifact_version) is_report ∙ stage.version;
          anchor =
              anchored platform bytes request.manifest_sha256 request.require_trust_anchor anchor;
          coverage = covered (source.list_files s) m canonical coverage;
          checks = checks;
          last = t.source;
          same_files = opening.1;
          snapshot = snapshot;
          source_snapshot_sha256 = ap (λ k. k.source_snapshot_sha256) is_report ∙ digest;
          finalized = finalized;
          seen = opening.0;
          hashes = hashes;
        },
      )
