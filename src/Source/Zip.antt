-- ===== src/Source/Zip.antt =====
-- `ZipSource` of src/artifact_proof/source.py. The entries of the archive and the bytes of a member
-- are what the `zipfile` module reports.
use Prim.Native.Nat.{bit_and, max}
use Prim.Native.Char.{Char}
use mathlib.Core.Option
use artifact_proof_lab.Base.{
  ℕ, ◌+◌, ◌*◌, ◌/◌, ◌^◌, String, Bool, true, false, ◌||◌, Option, none, some, List, [], ◌∷◌, map,
  length, mem, ltb, eqb, if◌then◌else◌,
}
use artifact_proof_lab.Base.Text.{chars, of_chars, is_char}
use artifact_proof_lab.Base.Outcome.{source_error, Result, ok, require, reject, ◌>>=◌, ◌>>◌}
use artifact_proof_lab.Paths.{canonical_relative_path}
use artifact_proof_lab.Platform.{Platform, ZipInfo}
use artifact_proof_lab.Source.Limits.{SourceLimits}

-- The text without a final slash, if it ends with one.
chop : List Char → Option (List Char)
chop [] = none
chop (c ∷ []) = if is_char b'/' c then some [] else none
chop (c ∷ d ∷ cs) = Option.map (◌∷◌ c) (chop (d ∷ cs))

-- `info.is_dir()` holds for the names that end with a slash, which is cut off.
abbrev chopped : ZipInfo → Option (List Char)
unfolding chop
chopped info = chop (chars info.filename)

unfoldable pub is_dir : ZipInfo → Bool
unfolding chop
is_dir info = elim (chopped info) [ none ↦ false | some _ ↦ true ]

unfoldable pub raw_name : ZipInfo → String
unfolding chop
raw_name info = elim (chopped info) [ none ↦ info.filename | some cs ↦ of_chars cs ]

-- stat.S_IFMT(info.external_attr >> 16)
unfoldable pub file_type : ZipInfo → ℕ
file_type info = bit_and (info.external_attr / 2 ^ 16) 0o170000

abbrev pub link_type : ℕ
link_type = 0o120000

abbrev pub regular_type : ℕ
regular_type = 0o100000

-- info.file_size / max(info.compress_size, 1) > self.limits.max_compression_ratio
unfoldable pub too_dense : SourceLimits → ZipInfo → Bool
too_dense limits info =
    ltb (limits.ratio_num * max info.compress_size 1) (info.file_size * limits.ratio_den)

abbrev pub Members : Type 0
Members = List (String × ZipInfo)

abbrev pub names : Members → List String
names members = map (λ e. e.0) members

-- The tests on an entry that is no directory.
unfoldable pub check_member : SourceLimits → Members → ZipInfo → Result (Unit {0})
unfolding raw_name file_type too_dense
check_member limits members info = do
  reject (mem (raw_name info) (names members)) (source_error "duplicate ZIP member")
  reject (eqb (file_type info) link_type) (source_error "ZIP symlink is forbidden")
  require (eqb (file_type info) 0 || eqb (file_type info) regular_type)
      (source_error "non-regular ZIP member is forbidden")
  reject (eqb (bit_and info.flag_bits 1) 1) (source_error "encrypted ZIP member is unsupported")
  reject (ltb limits.max_file_bytes info.file_size) (source_error "ZIP member exceeds size limit")
  reject (too_dense limits info) (source_error "ZIP member exceeds compression-ratio limit")

module _ (platform : Platform) (limits : SourceLimits) where
  -- The loop of `_inventory`, with the members and the total size so far.
  unfoldable pub scan : Members → ℕ → List ZipInfo → Result (Members × ℕ)
  unfolding is_dir raw_name check_member
  scan members total [] = ok (members, total)
  scan members total (info ∷ infos) = do
    name ← canonical_relative_path platform (raw_name info)
    let skip = scan members total infos
    if is_dir info then skip else do
      check_member limits members info
      scan ((raw_name info, info) ∷ members) (total + info.file_size) infos

  -- _inventory
  unfoldable pub inventory : List ZipInfo → Result Members
  unfolding scan
  inventory infos = do
    reject (ltb limits.max_entries (length infos)) (source_error "ZIP exceeds entry-count limit")
    (members, total) ← scan [] 0 infos
    reject (ltb limits.max_total_bytes total)
        (source_error "ZIP exceeds total uncompressed-size limit")
    ok members
