-- ===== src/Paths/Confined.antt =====
-- A path that `canonical_relative_path` accepts stays below the directory it is joined to.
use artifact_proof_lab.Base.{
  String, ◌≡◌, refl, Option, none, some, List, [], ◌∷◌, All, reverse_onto, arith, ◌==◌, eq_iff,
  if◌then◌else◌,
}
use artifact_proof_lab.Base.Outcome.{ok}
use artifact_proof_lab.Paths.Split.{split, split-NoSlash}
use artifact_proof_lab.Paths.{canonical_relative_path}
use artifact_proof_lab.Paths.Portable.{
  IsSegment, All-IsSegment, Passes-of-ok, canonical_relative_path-eq,
}
use artifact_proof_lab.Platform.{Platform}

-- Follows the parts of a path from a directory, given by the names that lead to it from the root:
-- "." stays, ".." goes up, and fails at the root.
pub walk : List String → List String → Option (List String)
walk here [] = some here
walk here (p ∷ ps) =
    let up : Option (List String) = elim here [ [] ↦ none | _ ∷ above ↦ walk above ps ] in
    let stay = walk here ps in
    let down = walk (p ∷ here) ps in if p == ".." then up else if p == "." then stay else down

walk-segments :
    (here ps : List String) → All IsSegment ps → walk here ps ≡ some (reverse_onto ps here)
unfolding walk reverse_onto
walk-segments here [] h = refl
walk-segments here (p ∷ ps) h = ground (
  arith,
  walk-segments (p ∷ here) ps h.1,
  eq_iff p ".",
  eq_iff p "..",
  h.0.not_dot,
  h.0.not_dotdot,
)

-- An accepted path never leaves the directory it is joined to: followed from any directory, it
-- ends below it, and every name of the path is one step down.
pub canonical_relative_path-confined :
    (platform : Platform) (raw p : String) (here : List String)
    → canonical_relative_path platform raw ≡ ok p
    → walk here (split p) ≡ some (reverse_onto (split raw) here)
canonical_relative_path-confined platform raw p here h =
    let passes = Passes-of-ok platform raw p h in
    rw (canonical_relative_path-eq platform raw p h) (
      walk-segments here (split raw)
        (All-IsSegment (split raw) passes.ordinary (split-NoSlash raw)))
