-- ===== src/Paths/Portable.antt =====
-- What `canonical_relative_path` accepts, told without its code: a path is a list of names joined
-- by slashes. The tests on the empty text, a leading slash and `PurePosixPath` add nothing.

use artifact_proof_lab.Base.{
  String, ◌≡◌, ◌≢◌, refl, ap, sym, ◌∙◌, ◌↔◌, true, false, List, [], ◌∷◌, any, All, arith, ◌==◌,
  eq_iff, Bool-cases, inl, inr, or_false, subst, All-map,
}
use artifact_proof_lab.Base.Text.{chars, is_char}
use artifact_proof_lab.Base.Outcome.{ok, ◌>>=◌, Ensures, Ensures-all}
use artifact_proof_lab.Paths.Split.{
  split, split_chars, join, join-split, split-join, split-NoSlash, split-cons,
}
use artifact_proof_lab.Paths.{
  canonical_relative_path, drive_prefix, starts_with_slash, is_special, drop_idle, join_or_dot,
  as_posix,
}
use artifact_proof_lab.Platform.{Platform}

-- The name of a file or a folder.
pub record IsSegment (p : String) : Type 0 where
  pub filled : p ≢ ""
  pub not_dot : p ≢ "."
  pub not_dotdot : p ≢ ".."
  pub no_slash : any (is_char b'/') (chars p) ≡ false

pub record IsPortable (platform : Platform) (raw : String) : Type 0 where
  pub first : String
  pub rest : List String
  pub spelled : raw ≡ join (first ∷ rest)
  pub segments : All IsSegment (first ∷ rest)
  pub no_nul : any (is_char 0) (chars raw) ≡ false
  pub no_backslash : any (is_char 92) (chars raw) ≡ false
  pub no_drive : drive_prefix (chars raw) ≡ false
  pub normalized : platform.nfc raw ≡ raw

is_special-false : (p : String) → IsSegment p → is_special p ≡ false
is_special-false p s =
    ground (arith, eq_iff p "", eq_iff p ".", eq_iff p "..", s.filled, s.not_dot, s.not_dotdot)

IsSegment-of :
    (p : String) → is_special p ≡ false → any (is_char b'/') (chars p) ≡ false → IsSegment p
IsSegment-of p h slashless = record {
  filled = λ e. ground (arith, eq_iff p "");
  not_dot = λ e. ground (arith, eq_iff p ".");
  not_dotdot = λ e. ground (arith, eq_iff p "..");
  no_slash = slashless;
}

any-is_special : (ps : List String) → All IsSegment ps → any is_special ps ≡ false
any-is_special [] h = refl
any-is_special (p ∷ ps) h = ground (arith, is_special-false p h.0, any-is_special ps h.1)

pub All-IsSegment :
    (ps : List String)
    → any is_special ps ≡ false
    → All (λ q. any (is_char b'/') (chars q) ≡ false) ps
    → All IsSegment ps
All-IsSegment [] h s = tt
All-IsSegment (p ∷ ps) h s =
    let (now, later) = or_false (is_special p) (any is_special ps) h in
    (IsSegment-of p now s.0, All-IsSegment ps later s.1)

drop_idle_lem : (ps : List String) → any is_special ps ≡ false → drop_idle ps ≡ ps
unfolding drop_idle
drop_idle_lem [] h = refl
drop_idle_lem (p ∷ ps) h = ground (arith, drop_idle_lem ps)

as_posix_lem : (raw : String) → any is_special (split raw) ≡ false → as_posix raw ≡ raw
unfolding as_posix
as_posix_lem raw h =
    let (p, ps, e) = split-cons raw in
    ap join_or_dot (drop_idle_lem (split raw) h ∙ e) ∙ (rw e at (join-split raw))

-- A leading slash makes the first part empty.
slash_first :
    (raw : String) → starts_with_slash (chars raw) ≡ true → any is_special (split raw) ≡ true
unfolding starts_with_slash split split_chars
slash_first String.[] h = cc
slash_first (String.◌∷◌ c s) h = rw h

empty_split : (raw : String) → raw ≡ "" → any is_special (split raw) ≡ false → ⊥
unfolding split split_chars
empty_split raw e h = let one : any is_special (split "") ≡ false = rw e at h in cc one

-- The tests of `canonical_relative_path`, as one conjunction.
pub record Passes (platform : Platform) (raw : String) : Type 0 where
  nonempty : (raw == "") ≡ false
  no_nul : any (is_char 0) (chars raw) ≡ false
  no_backslash : any (is_char 92) (chars raw) ≡ false
  no_slash : starts_with_slash (chars raw) ≡ false
  no_drive : drive_prefix (chars raw) ≡ false
  normalized : (platform.nfc raw == raw) ≡ true
  pub ordinary : any is_special (split raw) ≡ false

module _ (platform : Platform) (raw : String) where
  pub Passes-of-ok :
      (p : String) → canonical_relative_path platform raw ≡ ok p → Passes platform raw
  unfolding canonical_relative_path drive_prefix starts_with_slash as_posix ◌>>=◌
  Passes-of-ok p h = record {
    nonempty = ground arith;
    no_nul = ground arith;
    no_backslash = ground arith;
    no_slash = ground arith;
    no_drive = ground arith;
    normalized = ground arith;
    ordinary = ground arith;
  }

  ok-of-Passes : Passes platform raw → canonical_relative_path platform raw ≡ ok raw
  unfolding canonical_relative_path ◌>>=◌
  ok-of-Passes h = ground (arith, as_posix_lem raw h.ordinary, eq_iff (as_posix raw) raw)

  Passes-split : IsPortable platform raw → (ps : List String) × (split raw ≡ ps) × All IsSegment ps
  Passes-split h = (
    h.first ∷ h.rest,
    ap split h.spelled
        ∙ split-join h.first h.rest (All-map (h.first ∷ h.rest) (λ p s. s.no_slash) h.segments),
    h.segments,
  )

  ordinary_split : IsPortable platform raw → any is_special (split raw) ≡ false
  ordinary_split h = let (ps, e, segments) = Passes-split h in rw e (any-is_special ps segments)

  Passes-of-IsPortable : IsPortable platform raw → Passes platform raw
  Passes-of-IsPortable h =
      let ordinary = ordinary_split h in
      record {
        nonempty = elim (Bool-cases (raw == "")) [
          | inl empty ↦ absurd (empty_split raw ((eq_iff raw "").0 empty) ordinary)
          | inr filled ↦ filled
        ];
        no_nul = h.no_nul;
        no_backslash = h.no_backslash;
        no_slash = elim (Bool-cases (starts_with_slash (chars raw))) [
          | inl slashed ↦ cc (slash_first raw slashed, ordinary)
          | inr fine ↦ fine
        ];
        no_drive = h.no_drive;
        normalized = (eq_iff (platform.nfc raw) raw).1 h.normalized;
        ordinary = ordinary;
      }

  IsPortable-of-Passes : Passes platform raw → IsPortable platform raw
  IsPortable-of-Passes h =
      let (p, ps, e) = split-cons raw in
      record {
        first = p;
        rest = ps;
        spelled = rw e at (sym (join-split raw));
        segments =
            subst (All IsSegment) e (All-IsSegment (split raw) h.ordinary (split-NoSlash raw));
        no_nul = h.no_nul;
        no_backslash = h.no_backslash;
        no_drive = h.no_drive;
        normalized = (eq_iff (platform.nfc raw) raw).0 h.normalized;
      }

-- A path is accepted, and returned as it is, exactly when it is a list of proper names (none is
-- empty, "." or "..", none holds a slash) joined by slashes, without NUL, backslash or drive
-- prefix, that NFC normalisation leaves alone.
pub canonical_relative_path_iff :
    (platform : Platform) (raw : String)
    → (canonical_relative_path platform raw ≡ ok raw) ↔ IsPortable platform raw
canonical_relative_path_iff platform raw = (
  λ h. IsPortable-of-Passes platform raw (Passes-of-ok platform raw raw h),
  λ h. ok-of-Passes platform raw (Passes-of-IsPortable platform raw h),
)

pub canonical_relative_path-eq :
    (platform : Platform) (raw p : String) → canonical_relative_path platform raw ≡ ok p → p ≡ raw
unfolding canonical_relative_path ◌>>=◌
canonical_relative_path-eq platform raw p h = ground arith

module _ (platform : Platform) (raw : String) where
  pub canonical-raw : Ensures (λ _. IsPortable platform raw) (canonical_relative_path platform raw)
  canonical-raw = Ensures-all λ p h.
      (canonical_relative_path_iff platform raw).0
        (rw (canonical_relative_path-eq platform raw p h) at h)

  pub canonical-Ensures : Ensures (IsPortable platform) (canonical_relative_path platform raw)
  canonical-Ensures = Ensures-all λ p h.
      let e = canonical_relative_path-eq platform raw p h in
      rw e ((canonical_relative_path_iff platform raw).0 (rw e at h))
