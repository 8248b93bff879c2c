-- ===== src/Samples/Documents.antt =====
-- The sample manifest, and sample pointers, numbers and reports.
use Prim.Native.Char.{Char}
use artifact_proof_lab.Base.{
  ◌+◌, String, ◌≡◌, ◌≢◌, ◌↔◌, ◌⊎◌, refl, true, false, none, some, List, [], ◌∷◌, reverse_onto,
  arith,
}
use artifact_proof_lab.Base.Int.{negsuc}
use artifact_proof_lab.Base.Text.{chars}
use artifact_proof_lab.Base.Outcome
use artifact_proof_lab.Base.Outcome.{Result, ok, raise, traverse}
use artifact_proof_lab.Json.{
  Json, null, arr, fields_of, items_of, Number, Fields, obj, Decimal, str, get, keys, elements,
  unique_value,
}
use artifact_proof_lab.Paths.{canonical_relative_path}
use artifact_proof_lab.Paths.Split.{split, join}
use artifact_proof_lab.Model.{pass, fail, warn, skip, Report, report_to_dict}
use artifact_proof_lab.Model.Verdict.{report_counts, tally, IsPrinted}
use artifact_proof_lab.Manifest.Types.{
  json_pointer, file_sha256, value_binding, Environment, Manifest,
}
use artifact_proof_lab.Manifest.Shape.{object, only_keys, nonempty, is_filled}
use artifact_proof_lab.Manifest.Pointer.{valid_escapes}
use artifact_proof_lab.Manifest.Check.{parse_pointer}
use artifact_proof_lab.Manifest.Parse.{parse_manifest}
use artifact_proof_lab.Manifest.Fits.{IsWellFormed}
use artifact_proof_lab.Manifest.WellFormed.{parse_manifest-IsWellFormed}
use artifact_proof_lab.Checks.Identity.{finding, verify_manifest_anchor, verify_coverage}
use artifact_proof_lab.Checks.IdentityLaws.{Present, Listed, anchor_verdict, coverage_verdict}
use artifact_proof_lab.Checks.Declared.{environment_finding}
use artifact_proof_lab.Checks.EnvironmentLaws.{Matches, environment_verdict}
use artifact_proof_lab.Checks.Decimal.{canonical_decimal}
use artifact_proof_lab.Checks.DecimalLaws.{IsTuple, SameNumber}
use artifact_proof_lab.Checks.DecimalEq.{canonical_decimal_iff}
use artifact_proof_lab.Checks.Pointer.{resolve_json_pointer}
use artifact_proof_lab.Checks.PointerSteps.{Leads}
use artifact_proof_lab.Checks.PointerLaws.{print_pointer, resolve-print_pointer}
use artifact_proof_lab.Samples.{platform, data_digest}

abbrev sample_manifest : Manifest
sample_manifest = record {
  name = "lab";
  version = "1.0";
  files = ("data/list.json", record { sha256 = data_digest; mutable = false }) ∷ [];
  checks =
      record {
        check_id = "same";
        profiles = "sealed" ∷ "live" ∷ [];
        config =
            value_binding
              (file_sha256 "data/list.json" ∷ json_pointer "data/list.json" "/a~1b" ∷ []);
      }
      ∷ [];
  complete_coverage = true;
  allow_unlisted = [];
}

sample_parsed : parse_manifest platform "ARTIFACT_PROOF.json" (0 ∷ []) ≡ ok sample_manifest
unfolding parse_manifest Outcome.◌>>=◌ canonical_relative_path split join object only_keys keys get
    nonempty is_filled elements traverse valid_escapes unique_value
sample_parsed = refl

parse_manifest-IsWellFormed_example : IsWellFormed platform "ARTIFACT_PROOF.json" sample_manifest
parse_manifest-IsWellFormed_example =
    parse_manifest-IsWellFormed platform "ARTIFACT_PROOF.json" (0 ∷ []) sample_manifest
      sample_parsed

abbrev listed_files : List String
listed_files = "ARTIFACT_PROOF.json" ∷ "data/list.json" ∷ "stray.txt" ∷ []

coverage_verdict_example :
    ((verify_coverage listed_files sample_manifest "ARTIFACT_PROOF.json").status ≡ pass) ↔ (
      Present listed_files sample_manifest
      × (true ≡ true → Listed listed_files sample_manifest "ARTIFACT_PROOF.json"))
coverage_verdict_example = coverage_verdict listed_files sample_manifest "ARTIFACT_PROOF.json"

anchor_verdict_example :
    let verdict = (verify_manifest_anchor platform (1 ∷ []) (some data_digest) true).status in
    ((verdict ≡ pass) ↔ (some data_digest ≡ some (platform.sha256 (1 ∷ []))))
    × ((verdict ≡ fail) ↔ (
        ((d : String) × (some data_digest ≡ some d) × (d ≢ platform.sha256 (1 ∷ [])))
        ⊎ ((some data_digest ≡ none) × (true ≡ true))))
anchor_verdict_example = anchor_verdict platform (1 ∷ []) (some data_digest) true

-- 1.50 and 1.5
abbrev long_form : Decimal
long_form = record { sign = 0; digits = 1 ∷ 5 ∷ 0 ∷ []; exponent = negsuc 1 }

abbrev short_form : Decimal
short_form = record { sign = 0; digits = 1 ∷ 5 ∷ []; exponent = negsuc 0 }

long_form-IsTuple : IsTuple long_form
unfolding reverse_onto
long_form-IsTuple = record {
  digits = (omega arith, (omega arith, (omega arith, tt)));
  lead = λ _ e. omega arith;
}

short_form-IsTuple : IsTuple short_form
unfolding reverse_onto
short_form-IsTuple = record { digits = (omega arith, (omega arith, tt)); lead = λ _ e. omega arith }

canonical_decimal_iff_example :
    (canonical_decimal long_form ≡ canonical_decimal short_form) ↔ SameNumber long_form short_form
canonical_decimal_iff_example =
    canonical_decimal_iff long_form short_form long_form-IsTuple short_form-IsTuple

-- An array in an object.
abbrev nested : Json Decimal
nested = obj (fields_of (("a/b", arr (items_of (null ∷ str data_digest ∷ []))) ∷ []))

abbrev first_element : List (List Char)
first_element = chars "a/b" ∷ chars "0" ∷ []

resolve-print_pointer_example :
    (parse_pointer (some (str (print_pointer first_element))) ≡ ok (print_pointer first_element))
    × ((resolve_json_pointer platform nested (print_pointer first_element) ≡ ok null)
        ↔ Leads platform nested first_element null)
resolve-print_pointer_example = resolve-print_pointer platform nested first_element null

abbrev sample_report : Report
sample_report = record {
  artifact = "lab";
  profile = "sealed";
  manifest_sha256 = none;
  artifact_name = none;
  artifact_version = none;
  findings =
      finding "a" "sha256" pass "" none none
      ∷ finding "b" "sha256" fail "" none none
      ∷ finding "c" "sha256" warn "" none none
      ∷ [];
  source_snapshot_sha256 = none;
}

report_counts_example :
    (fields : Fields Number) × (summary : Fields Number) × (report_to_dict sample_report
      ≡ obj fields)
    × IsPrinted sample_report.findings fields summary
    × (tally pass sample_report.findings
          + tally fail sample_report.findings
          + tally warn sample_report.findings
          + tally skip sample_report.findings
        ≡ 3)
report_counts_example = report_counts sample_report

-- The reference of another machine, enforced.
abbrev other_machine : Environment
other_machine = record {
  python_implementation = "cpython";
  python_major = 3;
  python_minor = 12;
  platform_system = "Linux";
  platform_machine = some "arm64";
  enforce = true;
}

environment_verdict_example :
    (((environment_finding platform "env" other_machine).status ≡ pass)
      ↔ Matches platform other_machine)
    × (((environment_finding platform "env" other_machine).status ≡ fail)
        ↔ ((¬ Matches platform other_machine) × (true ≡ true)))
environment_verdict_example = environment_verdict platform "env" other_machine
