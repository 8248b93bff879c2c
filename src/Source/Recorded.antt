-- ===== src/Source/Recorded.antt =====
-- What the checks rely on in a source: that it remembers the digest of each path it has read.
use artifact_proof_lab.Base.{ℕ, String, ◌≡◌, Option, List}
use artifact_proof_lab.Base.Outcome.{ok}
use artifact_proof_lab.Base.Exec.{Keeps}
use artifact_proof_lab.Platform.{Platform, Bytes}
use artifact_proof_lab.Source.Interface.{ArtifactSource}
use artifact_proof_lab.Source.Limits.{SourceLimits}
use artifact_proof_lab.Source.Disk.{Disk}
use artifact_proof_lab.Source.Directory.{Directory, directory_source}
use artifact_proof_lab.Source.DirectoryLaws.{
  IsStable, read_bytes-stable, finalize_snapshot-stable, Observed, Observed-IsStable,
  read_bytes-records,
}

-- A property of the source's state that no operation of the source breaks.
pub record Lasts {S : Type 0} (source : ArtifactSource S) (P : S → Type 0) : Type 0 where
  pub read : (path : String) (max_bytes : Option ℕ) → Keeps P (source.read_bytes path max_bytes)
  pub finalize : Keeps P source.finalize_snapshot

module _ {S : Type 0} {source : ArtifactSource S} {P : S → Type 0} where
  pub Lasts-when : (C : Type 0) → Lasts source P → Lasts source (λ s. C → P s)
  Lasts-when C lasts = record {
    read = λ q max_bytes. record { after = λ s h c. (lasts.read q max_bytes).after s (h c) };
    finalize = record { after = λ s h c. lasts.finalize.after s (h c) };
  }

module _ {S : Type 0} {source : ArtifactSource S} where
  pub Lasts-always : (C : Type 0) → Lasts source (λ _. C)
  Lasts-always C = record {
    read = λ q max_bytes. record { after = λ s h. h };
    finalize = record { after = λ s h. h };
  }

module _ {S : Type 0} {source : ArtifactSource S} {P Q : S → Type 0} where
  pub Lasts-both : Lasts source P → Lasts source Q → Lasts source (λ s. P s × Q s)
  Lasts-both p q = record {
    read = λ path max_bytes. record {
      after = λ s h. ((p.read path max_bytes).after s h.0, (q.read path max_bytes).after s h.1);
    };
    finalize = record { after = λ s h. (p.finalize.after s h.0, q.finalize.after s h.1) };
  }

-- `Seen path digest s`: the digest that the source has settled on for the path.
pub record Recorded {S : Type 0} (platform : Platform) (source : ArtifactSource S) : Type 1 where
  pub Seen : String → String → S → Type 0
  pub seen :
      (path : String) (max_bytes : Option ℕ) (s : S) {bytes : Bytes}
      → (source.read_bytes path max_bytes s).0 ≡ ok bytes
      → Seen path (platform.sha256 bytes) (source.read_bytes path max_bytes s).1
  pub seen_lasts : (path digest : String) → Lasts source (Seen path digest)
  pub files_last : (files : List String) → Lasts source (λ s. source.list_files s ≡ files)

module _ (platform : Platform) (limits : SourceLimits) (disk : Disk) where
  pub stable-Lasts :
      (P : Directory → Type 0) → IsStable P → Lasts (directory_source platform limits disk) P
  stable-Lasts P stable = record {
    read = read_bytes-stable platform limits disk stable;
    finalize = finalize_snapshot-stable platform limits disk stable;
  }

  unfoldable pub directory_recorded : Recorded platform (directory_source platform limits disk)
  directory_recorded = record {
    Seen = Observed;
    seen = λ path max_bytes s h. read_bytes-records platform limits disk path max_bytes s h;
    seen_lasts = λ path digest. stable-Lasts (Observed path digest) (Observed-IsStable path digest);
    files_last = λ files.
        stable-Lasts (λ s. (directory_source platform limits disk).list_files s ≡ files)
          (record { tick = λ s n h. h; extend = λ s q d new h. h });
  }
