-- ===== src/Model.antt =====
-- src/artifact_proof/model.py: findings and the frozen report. A value of `expected` or
-- `observed` is the JSON value that a report prints.
pub mod Verdict
use artifact_proof_lab.Base.{
  ℕ, suc, String, Bool, true, false, not, Option, none, some, List, [], ◌∷◌, ◌++◌, map, any,
  if◌then◌else◌,
}
use artifact_proof_lab.Base.Int.{pos}
use artifact_proof_lab.Json.{Json, Number, int, num, str, arr, obj, Fields, fields_of, items_of}

pub data Status : Type 0 where
  pass fail warn skip : Status

pub record Finding : Type 0 where
  pub check_id : String
  pub check_type : String
  pub status : Status
  pub message : String
  pub expected : Option (Json Number)
  pub observed : Option (Json Number)

pub record Report : Type 0 where
  pub artifact : String
  pub profile : String
  pub manifest_sha256 : Option String
  pub artifact_name : Option String
  pub artifact_version : Option String
  pub findings : List Finding
  pub source_snapshot_sha256 : Option String

-- Status.value
unfoldable pub value : Status → String
value pass = "PASS"
value fail = "FAIL"
value warn = "WARN"
value skip = "SKIP"

abbrev pub is_fail : Status → Bool
is_fail fail = true
is_fail _ = false

unfoldable pub passed : Report → Bool
passed r = not (any (λ f. is_fail f.status) r.findings)

unfoldable pub status : Report → String
unfolding passed
status r = if passed r then "PASS" else "FAIL"

-- A member of a dictionary that is left out where its value is None.
abbrev present : {N : Type 0} → String → Option (Json N) → List (String × Json N)
present k none = []
present k (some v) = (k, v) ∷ []

abbrev text : Option String → Option (Json Number)
text none = none
text (some s) = some (str s)

unfoldable pub finding_to_dict : Finding → Json Number
unfolding value
finding_to_dict f = obj (
    fields_of (
      ("check_id", str f.check_id)
      ∷ ("check_type", str f.check_type)
      ∷ ("status", str (value f.status))
      ∷ ("message", str f.message)
      ∷ (present "expected" f.expected ++ present "observed" f.observed)))

pub record Counts : Type 0 where
  pub passes : ℕ
  pub fails : ℕ
  pub warns : ℕ
  pub skips : ℕ

-- counts[finding.status.value] += 1
abbrev count_one : Status → Counts → Counts
count_one pass c = record c { passes = suc c.passes }
count_one fail c = record c { fails = suc c.fails }
count_one warn c = record c { warns = suc c.warns }
count_one skip c = record c { skips = suc c.skips }

count_from : Counts → List Finding → Counts
count_from c [] = c
count_from c (f ∷ fs) = count_from (count_one f.status c) fs

unfoldable pub counts : Report → Counts
unfolding count_from
counts r = count_from (record { passes = 0; fails = 0; warns = 0; skips = 0 }) r.findings

abbrev pub number : ℕ → Json Number
number n = num (int (pos n))

unfoldable pub report_to_dict : Report → Json Number
unfolding counts status finding_to_dict
report_to_dict r =
    let c = counts r in
    obj (
      fields_of (
        ("format", str "artifact-proof-report-v1")
        ∷ ("status", str (status r))
        ∷ ("artifact", str r.artifact)
        ∷ ("profile", str r.profile)
        ∷ (
          "summary",
          obj (
              fields_of (
                ("PASS", number c.passes)
                ∷ ("FAIL", number c.fails)
                ∷ ("WARN", number c.warns)
                ∷ ("SKIP", number c.skips)
                ∷ [])),
        )
        ∷ ("findings", arr (items_of (map finding_to_dict r.findings)))
        ∷ (present "manifest_sha256" (text r.manifest_sha256)
            ++ (present "source_snapshot_sha256" (text r.source_snapshot_sha256)
                ++ (present "artifact_name" (text r.artifact_name)
                    ++ present "artifact_version" (text r.artifact_version))))))
