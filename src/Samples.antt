-- ===== src/Samples.antt =====
-- Concrete data: a platform, an artifact on a disk with its manifest, and the requests on it.
pub mod Verification
pub mod Sources
pub mod Documents
pub mod Episodes
pub mod Runs
pub mod Learning
pub mod Lessons
use artifact_proof_lab.Base.{
  ℕ, ◌*◌, String, Bool, true, false, Option, none, some, List, [], ◌∷◌, length, eqb, ◌==◌,
  if◌then◌else◌,
}
use artifact_proof_lab.Base.Int.{pos}
use artifact_proof_lab.Base.Outcome.{Result, ok}
use artifact_proof_lab.Json.{
  Json, Number, Decimal, int, num, bool, str, arr, obj, items_of, fields_of,
}
use artifact_proof_lab.Platform.{Platform, Bytes, ZipInfo, tree}
use artifact_proof_lab.Source.Disk.{Stat, Entry, folder, file, Disk}
use artifact_proof_lab.Engine.{Request}

abbrev pub data_digest : String
data_digest = "0123456789abcdef0123456789abcdef0123456789abcdef0123456789abcdef"

abbrev pub other_digest : String
other_digest = "fedcba9876543210fedcba9876543210fedcba9876543210fedcba9876543210"

-- {"id": "same", "type": "value_binding", "operands": [...]}
abbrev pub binding_json : Json Number
binding_json = obj (
    fields_of (
      ("id", str "same")
      ∷ ("type", str "value_binding")
      ∷ (
        "operands",
        arr (
            items_of (
              obj (fields_of (("kind", str "file_sha256") ∷ ("path", str "data/list.json") ∷ []))
              ∷ obj (
                  fields_of (
                    ("kind", str "json_pointer")
                    ∷ ("path", str "data/list.json")
                    ∷ ("pointer", str "/a~1b")
                    ∷ []))
              ∷ [])),
      )
      ∷ []))

abbrev pub manifest_json : Json Number
manifest_json = obj (
    fields_of (
      ("format", str "artifact-proof-manifest-v1")
      ∷ ("artifact", obj (fields_of (("name", str "lab") ∷ ("version", str "1.0") ∷ [])))
      ∷ (
        "files",
        obj (
            fields_of
              (("data/list.json", obj (fields_of (("sha256", str data_digest) ∷ []))) ∷ [])),
      )
      ∷ ("checks", arr (items_of (binding_json ∷ [])))
      ∷ []))

-- {"a/b": the digest of the file}
abbrev pub document : Json Decimal
document = obj (fields_of (("a/b", str data_digest) ∷ []))

abbrev pub platform : Platform
platform = record {
  sha256 = λ bytes. if eqb (length bytes) 3 then data_digest else other_digest;
  nfc = λ raw. raw;
  loads = λ bytes. tree manifest_json;
  loads_strict = λ bytes. tree document;
  float_is = λ text n. false;
  is_digit = λ c. true;
  decimal_digit = λ c. some 0;
  sqlite_quick = λ bytes. some ("ok" ∷ []);
  sqlite_full = λ bytes. none;
  python_implementation = "cpython";
  python_major = 3;
  python_minor = 12;
  platform_system = "Linux";
  platform_machine = "x86_64";
  zip_entries = λ bytes. none;
  zip_read = λ bytes info limit. ok bytes;
}

abbrev regular_mode : ℕ
regular_mode = 0o100644

abbrev pub stat_of : ℕ → ℕ → Stat
stat_of ino size = record {
  st_mode = regular_mode;
  st_dev = 1;
  st_ino = ino;
  st_size = size;
  st_mtime_ns = 7;
}

abbrev content : String → ℕ × Bytes
content path = if path == "data/list.json" then (12, 1 ∷ 2 ∷ 3 ∷ []) else (11, 1 ∷ 2 ∷ [])

-- A disk that nothing changes.
abbrev pub disk : Disk
disk = record {
  walk = λ n.
      folder "data" false
      ∷ file "ARTIFACT_PROOF.json" (some (stat_of 11 2)) (some (stat_of 11 2))
      ∷ file "data/list.json" (some (stat_of 12 3)) (some (stat_of 12 3))
      ∷ [];
  access = λ n path.
      let (ino, bytes) = content path in
      let stat = stat_of ino (length bytes) in
      record { parts = some stat ∷ []; opened = some (stat, bytes, stat) };
}

abbrev pub request : Request
request = record {
  artifact = "lab";
  manifest_path = "ARTIFACT_PROOF.json";
  profile = "sealed";
  manifest_sha256 = some other_digest;
  require_trust_anchor = true;
}
