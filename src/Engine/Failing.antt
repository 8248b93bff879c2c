-- ===== src/Engine/Failing.antt =====
-- Exceptions that are raised in `verify_artifact` of src/artifact_proof/engine.py.
use Prim.Native.String.{◌++◌ as append}
use artifact_proof_lab.Base.{String, ◌≡◌, none, List, [], ◌∷◌, ◌++◌}
use artifact_proof_lab.Base.Outcome.{
  Exception, manifest_error, source_error, value_error, zip_error, action_rejected,
  curriculum_error, crash, Result, ok, raise,
}
use artifact_proof_lab.Platform.{Platform}
use artifact_proof_lab.Model.{fail, Finding, Report}
use artifact_proof_lab.Source.Interface.{ArtifactSource}
use artifact_proof_lab.Engine.{Request, start, prepare, validate}

-- The finding that a caught exception leaves, with the name of its class and its message.
abbrev pub failure : String → Finding
failure message = record {
  check_id = "artifact-contract";
  check_type = "contract";
  status = fail;
  message = message;
  expected = none;
  observed = none;
}

-- The report has the findings made so far and, last, the failure.
abbrev pub IsReported : List Finding → String → Result Report → Type 0
IsReported findings message answer =
    (r : Report) × (answer ≡ ok r) × (r.findings ≡ findings ++ failure message ∷ [])

-- What becomes of an exception that is raised after these findings.
abbrev pub Treated : List Finding → Exception → Result Report → Type 0
Treated findings (manifest_error m) answer = IsReported findings (append "ManifestError: " m) answer
Treated findings (source_error m) answer = IsReported findings (append "SourceError: " m) answer
Treated findings (value_error m) answer = answer ≡ raise (value_error m)
Treated findings (zip_error m) answer = answer ≡ raise (zip_error m)
Treated findings (action_rejected m) answer = answer ≡ raise (action_rejected m)
Treated findings (curriculum_error m) answer = answer ≡ raise (curriculum_error m)
Treated findings (crash m) answer = answer ≡ raise (crash m)

module _ {S : Type 0} (platform : Platform) (source : ArtifactSource S) (request : Request)
    (opened : Result S) where
  -- The exception is raised where these findings have been made: in the tests before the source
  -- is opened, on opening it, or while it is read and checked.
  pub data Raised : Exception → List Finding → Type 0 where
    unprepared : (e : Exception) → prepare platform request ≡ raise e → Raised e []
    unopened :
        (e : Exception) (canonical : String)
        → prepare platform request ≡ ok canonical
        → opened ≡ raise e
        → Raised e []
    unfinished :
        (e : Exception) (canonical : String) (s : S)
        → prepare platform request ≡ ok canonical
        → opened ≡ ok s
        → (validate platform source request canonical (start s)).0 ≡ raise e
        → Raised e (validate platform source request canonical (start s)).1.findings
