-- ===== src/Samples/Verification.antt =====
-- The verification of the sample artifact.
use Prim.Native.String.{◌++◌ as append}
use artifact_proof_lab.Base.{Bool, false, [], ◌≡◌, refl, true, none, sorted}
use artifact_proof_lab.Base.Outcome
use artifact_proof_lab.Base.Exec
use artifact_proof_lab.Base.Outcome.{Exception, source_error, Result, ok, raise, traverse}
use artifact_proof_lab.Json.{get, keys, elements, unique_value}
use artifact_proof_lab.Json.Dump.{dump_string}
use artifact_proof_lab.Source.Recorded.{directory_recorded}
use artifact_proof_lab.Engine.Passing.{Verified, passed-Verified}
use artifact_proof_lab.Model.{Report, passed}
use artifact_proof_lab.Paths.{canonical_relative_path}
use artifact_proof_lab.Paths.Split.{split, join}
use artifact_proof_lab.Manifest.Shape.{object, only_keys, nonempty, is_filled}
use artifact_proof_lab.Manifest.Pointer.{valid_escapes}
use artifact_proof_lab.Source.Limits.{default_limits}
use artifact_proof_lab.Source.Disk.{is_regular, is_link}
use artifact_proof_lab.Source.Directory.{
  Directory, open_directory, directory_source, read_bytes, finalize_snapshot,
}
use artifact_proof_lab.Engine.{verify_artifact}
use artifact_proof_lab.Engine.Snapshot.{Sealed, passed-Sealed}
use artifact_proof_lab.Samples.{platform, disk, request}

abbrev run : Result Report
run =
    verify_artifact platform (directory_source platform default_limits disk) request
      (open_directory platform default_limits disk)

abbrev report_or : Report → Result Report → Report
report_or d (ok r) = r
report_or d (raise e) = d

abbrev passes : Result Report → Bool
passes (ok r) = passed r
passes (raise e) = false

abbrev no_report : Report
no_report = record {
  artifact = "";
  profile = "";
  manifest_sha256 = none;
  artifact_name = none;
  artifact_version = none;
  findings = [];
  source_snapshot_sha256 = none;
}

abbrev sample_report : Report
sample_report = report_or no_report run

of_passes :
    (result : Result Report)
    → passes result ≡ true
    → (result ≡ ok (report_or no_report result)) × (passed (report_or no_report result) ≡ true)
of_passes (ok r) h = (refl, h)
of_passes (raise e) h = cc

run_passes : passes run ≡ true
unfolding verify_artifact open_directory Outcome.◌>>=◌ canonical_relative_path split join is_regular
    Exec.◌>>=◌ read_bytes is_link object only_keys keys get nonempty is_filled elements traverse
    valid_escapes unique_value sorted finalize_snapshot Exec.try_except passed dump_string
run_passes = refl

passed-Sealed_example :
    (s : Directory) × (open_directory platform default_limits disk ≡ ok s)
    × Sealed platform default_limits disk request s sample_report
passed-Sealed_example =
    passed-Sealed platform default_limits disk request sample_report (of_passes run run_passes).0
      (of_passes run run_passes).1

passed-Verified_example :
    (s : Directory) × (open_directory platform default_limits disk ≡ ok s)
    × Verified platform
        (directory_source platform default_limits disk)
        (directory_recorded platform default_limits disk)
        request
        s
        sample_report
passed-Verified_example =
    passed-Verified platform (directory_source platform default_limits disk)
      (directory_recorded platform default_limits disk) request
      (open_directory platform default_limits disk) sample_report (of_passes run run_passes).0
      (of_passes run run_passes).1

-- The root is no directory.
abbrev unreadable : Result Directory
unreadable = raise (source_error "artifact root is not a directory")
