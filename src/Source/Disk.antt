-- ===== src/Source/Disk.antt =====
-- What the operating system answers to a directory source. Every call takes its answer from the
-- disk at the number of calls made before, so other processes may change anything between calls,
-- and also between the `fstat` calls of one read.
use Prim.Native.Nat.{bit_and}
use artifact_proof_lab.Base.{ℕ, String, Bool, Option, List, eqb}
use artifact_proof_lab.Platform.{Bytes}

-- os.stat_result, with the fields that the program reads.
pub record Stat : Type 0 where
  pub st_mode : ℕ
  pub st_dev : ℕ
  pub st_ino : ℕ
  pub st_size : ℕ
  pub st_mtime_ns : ℕ

-- stat.S_ISREG, stat.S_ISLNK
unfoldable pub is_regular : Stat → Bool
is_regular s = eqb (bit_and s.st_mode 0o170000) 0o100000

unfoldable pub is_link : Stat → Bool
is_link s = eqb (bit_and s.st_mode 0o170000) 0o120000

-- One name that `os.walk` lists in a folder, with its path below the root.
pub data Entry : Type 0 where
  -- a folder, and whether it is a symbolic link
  folder : (relative : String) (link : Bool) → Entry
  -- a file, with the answers of `lstat` and `stat`; none is FileNotFoundError
  file : (relative : String) (lstat stat : Option Stat) → Entry

-- The answers to one read: `lstat` of each path from the root down, and what the open descriptor
-- shows: `fstat` before, the bytes that can be read, `fstat` after. none is OSError on `open`.
pub record Access : Type 0 where
  pub parts : List (Option Stat)
  pub opened : Option (Stat × Bytes × Stat)

pub record Disk : Type 0 where
  pub walk : ℕ → List Entry
  pub access : ℕ → String → Access
