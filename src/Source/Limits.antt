-- ===== src/Source/Limits.antt =====
-- `SourceLimits` of src/artifact_proof/source.py. The ratio of two sizes is compared with the
-- limit as an exact fraction, where Python divides floats: for the default limit 200.0 and sizes
-- under 64 MiB the two comparisons agree.
use Prim.Native.Nat.{min}
use artifact_proof_lab.Base.{ℕ, ◌*◌, Option, none, some}

pub record SourceLimits : Type 0 where
  pub max_entries : ℕ
  pub max_file_bytes : ℕ
  pub max_total_bytes : ℕ
  -- max_compression_ratio, as ratio_num / ratio_den
  pub ratio_num : ℕ
  pub ratio_den : ℕ

abbrev pub default_limits : SourceLimits
default_limits = record {
  max_entries = 4096;
  max_file_bytes = 64 * 1024 * 1024;
  max_total_bytes = 256 * 1024 * 1024;
  ratio_num = 200;
  ratio_den = 1;
}

-- self.limits.max_file_bytes if max_bytes is None else min(max_bytes, self.limits.max_file_bytes)
unfoldable pub read_limit : SourceLimits → Option ℕ → ℕ
read_limit limits none = limits.max_file_bytes
read_limit limits (some n) = min n limits.max_file_bytes
