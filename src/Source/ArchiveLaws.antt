-- ===== src/Source/ArchiveLaws.antt =====
-- The container of a ZIP source, at the start and at the end of a session.
use artifact_proof_lab.Base.{
  ℕ, ◌≤◌, List, length, reverse_onto, String, ◌≡◌, refl, ap, sym, ◌∙◌, Option, none, some, [], ◌∷◌,
  ◌==◌, eq_iff, and_true,
}
use artifact_proof_lab.Base.Outcome.{
  ok, Ensures, holds, raised, Ensures-bind, Ensures-require, Ensures-all, Ensures-ok,
}
use artifact_proof_lab.Platform.{Platform, Bytes, ZipInfo}
use artifact_proof_lab.Source.Limits.{SourceLimits}
use artifact_proof_lab.Source.Zip.{Members}
use artifact_proof_lab.Source.Disk.{Stat}
use artifact_proof_lab.Source.ZipLaws.{entries, total_size, IsInventory, inventory-IsInventory}
use artifact_proof_lab.Source.Directory.{same_identity, snapshot_digest}
use artifact_proof_lab.Source.Archive.{
  Container, Archive, valid_zip, hash_regular_path, open_archive, finalize_archive,
}

-- The members are the entries that are no directories, the last one first, within all limits.
pub record IsListing (platform : Platform) (limits : SourceLimits) (infos : List ZipInfo)
    (members : Members) : Type 0 where
  pub fits : IsInventory platform limits members
  pub listed : members ≡ reverse_onto (entries infos) []
  pub few : length infos ≤ limits.max_entries
  pub small : total_size members ≤ limits.max_total_bytes

valid_zip-Ensures :
    (found : Option (List ZipInfo)) → Ensures (λ infos. found ≡ some infos) (valid_zip found)
valid_zip-Ensures none = raised
valid_zip-Ensures (some infos) = holds refl

-- The container was read whole, as these bytes, at the n-th call.
abbrev pub ReadAs : Container → ℕ → Bytes → Type 0
ReadAs container n content =
    (before : Stat) × (after : Stat) × (container.hashed n ≡ some (before, content, after))

hash_regular_path-Ensures :
    (platform : Platform) (answer : Option (Stat × Bytes × Stat))
    → Ensures
        (λ found.
          (before : Stat) × (content : Bytes) × (after : Stat) × (answer
            ≡ some (before, content, after))
          × (found.1 ≡ platform.sha256 content))
        (hash_regular_path platform answer)
unfolding hash_regular_path
hash_regular_path-Ensures platform none = raised
hash_regular_path-Ensures platform (some (before, content, after)) =
    Ensures-bind (Ensures-require _ _)
      λ _ _. Ensures-bind (Ensures-require _ _) λ _ _. holds (before, content, after, refl, refl)

module _ (platform : Platform) (limits : SourceLimits) (container : Container) where
  open_archive-Ensures :
      Ensures
        (λ archive.
          ((content : Bytes) × ReadAs container 0 content
            × (archive.archive_sha256 ≡ platform.sha256 content))
          × ((infos : List ZipInfo) × (container.entries ≡ some infos)
              × IsListing platform limits infos archive.members))
        (open_archive platform limits container)
  unfolding open_archive
  open_archive-Ensures = Ensures-bind (valid_zip-Ensures container.entries) λ infos found_infos.
      Ensures-bind (hash_regular_path-Ensures platform (container.hashed 0)) λ found hashed.
        Ensures-bind (Ensures-require _ _) λ _ _.
          Ensures-bind {P = λ members. IsListing platform limits infos members}
            (Ensures-all λ members accepted.
              let (fits, listed, few, small) =
                inventory-IsInventory platform limits infos members accepted in
              record { fits = fits; listed = listed; few = few; small = small })
            λ members fits.
              let (before, content, after, read, digest) = hashed in
              holds ((content, (before, after, read), digest), (infos, found_infos, fits))

  finalize_archive-Ensures :
      (archive : Archive)
      → Ensures
          (λ digest.
            (content : Bytes) × ReadAs container archive.calls content
            × (platform.sha256 content ≡ archive.archive_sha256)
            × (digest
                ≡ snapshot_digest platform "zip" (("container", archive.archive_sha256) ∷ [])))
          (finalize_archive platform limits container archive)
  unfolding finalize_archive
  finalize_archive-Ensures archive =
      Ensures-bind (hash_regular_path-Ensures platform (container.hashed archive.calls))
        λ found hashed. Ensures-bind (Ensures-require _ _) λ _ unchanged.
          let (before, content, after, read, digest) = hashed in
          let same : found.1 ≡ archive.archive_sha256 =
            (eq_iff found.1 archive.archive_sha256).0
              (and_true (same_identity found.0 archive.archive_metadata)
                (found.1 == archive.archive_sha256) unchanged).1 in
          holds (
            content,
            (before, after, read),
            sym digest ∙ same,
            ap (λ d. snapshot_digest platform "zip" (("container", d) ∷ [])) same,
          )

  -- A ZIP source that was opened and, after any number of calls, finalized: the container was read
  -- whole at the opening and at the end, as bytes with one digest, whose snapshot digest is what
  -- the finalization returns; and the members are exactly the entries of the container that are no
  -- directories, within the limits on their number, on each of them and on their total size.
  pub finalize_archive-agrees :
      (archive : Archive) (n : ℕ) (digest : String)
      → open_archive platform limits container ≡ ok archive
      → finalize_archive platform limits container (record archive { calls = n }) ≡ ok digest
      → (first : Bytes) × (last : Bytes) × ReadAs container 0 first
        × ReadAs container n last
        × (platform.sha256 first ≡ platform.sha256 last)
        × (digest ≡ snapshot_digest platform "zip" (("container", platform.sha256 first) ∷ []))
        × ((infos : List ZipInfo) × (container.entries ≡ some infos)
            × IsListing platform limits infos archive.members)
  finalize_archive-agrees archive n digest opened finalized =
      let (at_start, fits) = Ensures-ok open_archive-Ensures opened in
      let (first, read, taken) = at_start in
      let (last, read_again, same, result) =
        Ensures-ok (finalize_archive-Ensures (record archive { calls = n })) finalized in
      (
        first,
        last,
        read,
        read_again,
        sym taken ∙ sym same,
        result ∙ ap (λ d. snapshot_digest platform "zip" (("container", d) ∷ [])) taken,
        fits,
      )
