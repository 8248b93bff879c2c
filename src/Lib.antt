-- ===== src/Lib.antt =====
-- Artifact Proof Lab: a model of the artifact verifier in src/artifact_proof and of the core of the
-- training gym in gym, with the theorems that make them correct.
--
-- The program verifies an artifact, a directory or a ZIP archive, against a manifest that the
-- artifact carries. `verify_artifact` (Engine) opens a source (Source), reads the manifest with
-- it, parses it (Manifest), runs the checks that the manifest declares (Checks) and builds a
-- report of their findings (Model). Every path goes through `canonical_relative_path` (Paths).
--
-- The gym runs episodes of a task. `ReferenceGym.run` starts a session on a host, asks a policy for
-- decisions and a generator for candidates, hands them to the host, and writes all it sees into a
-- ledger. At the end it admits the episode or not: from the host's semantic verdict, the identity
-- of the observations, the verifier of ledger documents, and a proof bundle that `verify_artifact`
-- judges. A curriculum evaluates the results of its stages and makes a chain of receipts.
--
-- The parts and their files:
--   * Paths, Paths/Split: src/artifact_proof/paths.py. `split` is `str.split("/")`.
--   * Model: src/artifact_proof/model.py.
--   * Json, Json/Dump: JSON values as the decoder gives them, `_unique_object` and
--     `_unique_json_object`, and `json.dumps` as far as the program uses it.
--   * Manifest/Types, Shape, Pointer, Check, Parse: src/artifact_proof/manifest.py. A check's
--     configuration is a constructor for each check type.
--   * Source/Interface, Limits, Disk, Directory, Zip, Archive: src/artifact_proof/source.py. A directory is
--     read through a `Disk`, which gives the answer of the operating system to each call by the
--     number of the calls before it: other processes may change anything between two calls. A
--     method is a function of the object's state that returns a result and the next state.
--   * Checks/Identity, Declared, Binding, Pointer, Normal, Decimal: src/artifact_proof/checks.py.
--   * Engine: src/artifact_proof/engine.py. `Session` holds the local variables of
--     `verify_artifact`; what was written before an exception stays written, as the report needs.
--   * Gym/Canonical, Ledger, Verify: gym/ledger.py, the hash chain of a training episode and the
--     verifier of its document; `return False, reason` is an exception with the reason.
--   * Gym/Core, Admission: the types of gym/core.py, and `EvidenceAdmission`.
--   * Gym/Gateway: the protocols of gym/core.py and gym/host_boundary.py, as records of methods. A
--     method acts on a state `S`, which stands for all the objects behind it, and may raise.
--   * Gym/Budget, Run, Finish: `ReferenceGym.run` of gym/core.py. `Run.Run` holds the local
--     variables of its loop; `Finish.finally` is the `finally` that closes the session.
--   * Gym/Bundle: `ProofBundleVerifier`. The call of `verify_artifact` on the temporary directory
--     is a parameter that takes the files of the directory.
--   * Gym/Memory: `MemoryLearningSink`, on a state beside that of the other parties.
--   * Gym/LocalHost: `LocalReferenceHost` of gym/host_boundary.py.
--   * Gym/Curriculum, Registry, Promotion: gym/curriculum.py, and the loop over the stages in
--     gym/run_curriculum_reference.py (`promote`).
--   * Platform: what the program takes from its installation, as a parameter: SHA-256, NFC, the
--     JSON decoder, SQLite, `zipfile` and the facts on the machine.
--   * Base and its children: shared helpers. Samples and its children: concrete data and runs.
-- The other modules of a part hold its lemmas and theorems. Source/Recorded is the interface
-- between the sources and the theorems on the engine: a source that remembers what it has read.
--
-- Exceptions are values (`Base.Outcome.Exception`); a message keeps its fixed part only, and
-- `crash` stands for every exception that no handler of the program names. Numbers are natural
-- numbers or integers without bound, as in Python. `Json.Dump.decimal_from` prints a number on fuel one more
-- than the number, which is enough since each digit divides it by ten.
-- `Gym.Run.loop` runs on fuel, one more than `max_steps` rounds: each round of the loop takes a
-- step, which is counted, or gives the loop its reason to end. What the gym takes from Python's
-- numbers, conversions, the arithmetic of floats and `==`, is the parameter `Arithmetic`.
--
-- Not modelled: the command line (src/artifact_proof/cli.py), temporary files and connections of
-- SQLite, the floating-point division of the compression ratio (an exact fraction stands for it),
-- `close` of a source and `open_source`. Of the gym: the readers of task and curriculum files
-- (`PublicTask.from_dict`, `load_curriculum`), the temporary directory of a bundle, the adaptive,
-- on-policy and negative learners, transcripts and attestation, private packs, the environments of
-- gym/host.py, endpoints, sockets, subprocesses, and the runners other than the loop named above.
mod Base
pub mod Platform
pub mod Json
pub mod Paths
pub mod Model
pub mod Manifest
pub mod Source
pub mod Checks
pub mod Engine
pub mod Gym
pub mod Samples
