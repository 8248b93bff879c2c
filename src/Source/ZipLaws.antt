-- ===== src/Source/ZipLaws.antt =====
-- What the inventory of an archive guarantees of the members that it lists.
use Prim.Native.Nat.{bit_and, max}
use artifact_proof_lab.Base.{
  ℕ, ◌+◌, ◌*◌, ◌≤◌, String, ◌≡◌, ◌≢◌, refl, ◌⊎◌, ◌||◌, inl, inr, true, false, List, [], ◌∷◌, length,
  All, Distinct, not-mem, reverse_onto, eqb, ltb, arith, Bool-cases, if◌then◌else◌,
}
use artifact_proof_lab.Base.Outcome.{
  ok, Ensures, holds, Ensures-ok, Ensures-bind, Ensures-map, Ensures-require, Ensures-reject,
}
use artifact_proof_lab.Paths.Portable.{IsPortable, canonical-raw}
use artifact_proof_lab.Platform.{Platform, ZipInfo}
use artifact_proof_lab.Source.Limits.{SourceLimits}
use artifact_proof_lab.Source.Zip.{
  is_dir, raw_name, file_type, regular_type, Members, names, check_member, scan, inventory,
}

-- The members that are no directories, with their names.
pub entries : List ZipInfo → Members
entries [] = []
entries (info ∷ infos) =
    let rest = entries infos in if is_dir info then rest else (raw_name info, info) ∷ rest

abbrev pub total_size : Members → ℕ
total_size [] = 0
total_size ((_, info) ∷ members) = info.file_size + total_size members

pub record Fits (platform : Platform) (limits : SourceLimits) (member : String × ZipInfo)
    : Type 0 where
  pub portable : IsPortable platform member.0
  pub regular : (file_type member.1 ≡ 0) ⊎ (file_type member.1 ≡ regular_type)
  pub readable : bit_and member.1.flag_bits 1 ≢ 1
  pub bounded : member.1.file_size ≤ limits.max_file_bytes
  pub sparse :
      member.1.file_size * limits.ratio_den ≤ limits.ratio_num * max member.1.compress_size 1

-- A member list within its limits.
pub record IsInventory (platform : Platform) (limits : SourceLimits) (members : Members)
    : Type 0 where
  pub fits : All (Fits platform limits) members
  pub distinct : Distinct (names members)

eqb-false : (a b : ℕ) → eqb a b ≡ false → a ≢ b
eqb-false a b h = ground arith

ltb-false : (a b : ℕ) → ltb a b ≡ false → b ≤ a
ltb-false a b h = ground arith

regular_or : (t : ℕ) → (eqb t 0 || eqb t regular_type) ≡ true → (t ≡ 0) ⊎ (t ≡ regular_type)
regular_or t h = ground arith

module _ (platform : Platform) (limits : SourceLimits) where
  -- What the tests on one entry ensure.
  check_member-Ensures :
      (members : Members) (info : ZipInfo)
      → IsPortable platform (raw_name info)
      → IsInventory platform limits members
      → Ensures
          (λ _. IsInventory platform limits ((raw_name info, info) ∷ members))
          (check_member limits members info)
  unfolding check_member
  check_member-Ensures members info fine before = Ensures-bind (Ensures-reject _ _) λ _ new.
      Ensures-bind (Ensures-reject _ _) λ _ _. Ensures-bind (Ensures-require _ _) λ _ regular.
        Ensures-bind (Ensures-reject _ _) λ _ clear. Ensures-bind (Ensures-reject _ _) λ _ small.
          Ensures-map
            (λ _ sparse. record {
              fits = (
                record {
                  portable = fine;
                  regular = regular_or (file_type info) regular;
                  readable = λ e. eqb-false _ 1 clear e;
                  bounded = ltb-false _ _ small;
                  sparse = ltb-false _ _ sparse;
                },
                before.fits,
              );
              distinct = (not-mem (raw_name info) (names members) new, before.distinct);
            })
            (Ensures-reject _ _)

  abbrev Outcome : List ZipInfo → Members → Members × ℕ → Type 0
  Outcome infos before (members, total) =
      IsInventory platform limits members
      × (total ≡ total_size members)
      × (members ≡ reverse_onto (entries infos) before)

  scan-Ensures :
      (infos : List ZipInfo) (members : Members) (total : ℕ)
      → IsInventory platform limits members
      → total ≡ total_size members
      → Ensures (Outcome infos members) (scan platform limits members total infos)
  unfolding scan entries reverse_onto
  scan-Ensures [] members total fits e = holds (fits, e, refl)
  scan-Ensures (info ∷ infos) members total fits e =
      Ensures-bind (canonical-raw platform (raw_name info)) λ name fine.
        elim (Bool-cases (is_dir info)) [
          | inl folder ↦ rw folder (
              Ensures-map (λ r (more, sum, kept). (more, sum, rw folder kept))
                (scan-Ensures infos members total fits e))
          | inr file ↦ rw file (
              Ensures-bind (check_member-Ensures members info fine fits) λ _ more.
                Ensures-map (λ r (more', sum, kept). (more', sum, rw file kept))
                  (scan-Ensures infos ((raw_name info, info) ∷ members) (total + info.file_size)
                    more (omega arith)))
        ]

-- An inventory that is accepted lists exactly the entries that are no directories, the last one
-- first; no more entries stand in the archive than the limit allows; no name occurs twice; every
-- member has a portable name, is a regular file, is not encrypted, and keeps the limits on its
-- size and on its compression ratio; and the sizes add up to at most the limit on the total.
pub inventory-IsInventory :
    (platform : Platform) (limits : SourceLimits) (infos : List ZipInfo) (members : Members)
    → inventory platform limits infos ≡ ok members
    → IsInventory platform limits members
      × (members ≡ reverse_onto (entries infos) [])
      × (length infos ≤ limits.max_entries)
      × (total_size members ≤ limits.max_total_bytes)
unfolding inventory
inventory-IsInventory platform limits infos members h =
    Ensures-ok
      {P = λ found.
        IsInventory platform limits found
        × (found ≡ reverse_onto (entries infos) [])
        × (length infos ≤ limits.max_entries)
        × (total_size found ≤ limits.max_total_bytes)}
      (Ensures-bind (Ensures-reject _ _) λ _ few.
        Ensures-bind
          (scan-Ensures platform limits infos [] 0 (record { fits = tt; distinct = tt }) refl)
          λ r (fits, sum, kept). Ensures-bind (Ensures-reject _ _) λ _ small.
            holds (
              fits,
              kept,
              ltb-false _ _ few,
              rw sum at (ltb-false limits.max_total_bytes r.1 small),
            ))
      h
