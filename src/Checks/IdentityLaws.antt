-- ===== src/Checks/IdentityLaws.antt =====
-- What the anchor and the coverage findings say of the artifact.
use artifact_proof_lab.Base.{
  String, ◌≡◌, ◌≢◌, refl, ◌↔◌, ◌⊎◌, inl, inr, Bool, true, Option, none, some, some-eq, List, [],
  ◌∷◌, Holds, mem, mem-Holds, not-mem, Bool-cases, arith, ◌==◌, eq_iff,
}
use artifact_proof_lab.Model.{pass, fail}
use artifact_proof_lab.Platform.{Platform, Bytes}
use artifact_proof_lab.Manifest.Types.{Manifest}
use artifact_proof_lab.Checks.Identity.{
  verify_manifest_anchor, difference, is_empty, paths, missing, unlisted, verify_coverage,
}

-- The anchor passes exactly when a digest was supplied and is that of the manifest's bytes, and
-- it fails exactly when a supplied digest is another one, or when none was supplied and one is
-- required.
pub anchor_verdict :
    (platform : Platform) (bytes : Bytes) (expected : Option String) (require_anchor : Bool)
    → let verdict = (verify_manifest_anchor platform bytes expected require_anchor).status in
      ((verdict ≡ pass) ↔ (expected ≡ some (platform.sha256 bytes)))
      × ((verdict ≡ fail) ↔ (
          ((d : String) × (expected ≡ some d) × (d ≢ platform.sha256 bytes))
          ⊎ ((expected ≡ none) × (require_anchor ≡ true))))
unfolding verify_manifest_anchor
anchor_verdict platform bytes none require_anchor = (
  (λ e. ground arith, λ e. cc),
  (λ e. inr (refl, ground arith), elim [ inl (d, e, _) ↦ cc | inr (_, e) ↦ ground arith ]),
)
anchor_verdict platform bytes (some d) require_anchor = (
  (
    λ e. ground (arith, eq_iff d (platform.sha256 bytes)),
    λ e. ground (arith, eq_iff d (platform.sha256 bytes), some-eq e),
  ),
  (
    λ e. inl (d, refl, λ same. ground (arith, eq_iff d (platform.sha256 bytes))),
    elim [
      | inl (d', e, other) ↦ ground (arith, eq_iff d (platform.sha256 bytes), other, some-eq e)
      | inr (e, _) ↦ cc
    ],
  ),
)

Holds-difference :
    (a : String) (xs ys : List String) → Holds a (difference xs ys) ↔ (Holds a xs × (¬ Holds a ys))
unfolding difference
Holds-difference a [] ys = (λ h. absurd h, λ h. h.0)
Holds-difference a (x ∷ xs) ys =
    let (there, back) = Holds-difference a xs ys in
    elim (Bool-cases (mem x ys)) [
      | inl dropped ↦ rw dropped (
        λ h. (inr (there h).0, (there h).1),
        λ h. elim h.0 [
          | inl same ↦ absurd (h.1 (rw same at (mem-Holds x ys dropped)))
          | inr later ↦ back (later, h.1)
        ],
      )
      | inr kept ↦ rw kept (
        elim [
          | inl same ↦ (inl same, rw same at (not-mem x ys kept))
          | inr later ↦ (inr (there later).0, (there later).1)
        ],
        λ h. elim h.0 [ inl same ↦ inl same | inr later ↦ inr (back (later, h.1)) ],
      )
    ]

is_empty_iff : (xs : List String) → (is_empty xs ≡ true) ↔ ((a : String) → ¬ Holds a xs)
is_empty_iff [] = (λ _ a h. h, λ _. refl)
is_empty_iff (x ∷ xs) = (λ e. cc, λ h. absurd (h x (inl refl)))

-- Every declared file is there.
abbrev pub Present : List String → Manifest → Type 0
Present actual m = (a : String) → Holds a (paths m) → Holds a actual

-- Every file that is there is declared, allowed, or the manifest itself.
abbrev pub Listed : List String → Manifest → String → Type 0
Listed actual m manifest_path =
    (a : String)
    → Holds a actual
    → Holds a (paths m) ⊎ ((manifest_path ≡ a) ⊎ Holds a m.allow_unlisted)

missing_iff :
    (actual : List String) (m : Manifest) → (is_empty (missing actual m) ≡ true) ↔ Present actual m
missing_iff actual m =
    let (there, back) = is_empty_iff (missing actual m) in
    (
      λ e a declared. elim (Bool-cases (mem a actual)) [
        | inl found ↦ mem-Holds a actual found
        | inr lost ↦
            absurd (
              there e a ((Holds-difference a (paths m) actual).1 (declared, not-mem a actual lost)))
      ],
      λ h. back λ a held.
          let (declared, lost) = (Holds-difference a (paths m) actual).0 held in
          lost (h a declared),
    )

unlisted_iff :
    (actual : List String) (m : Manifest) (manifest_path : String)
    → (is_empty (unlisted actual m manifest_path) ≡ true) ↔ Listed actual m manifest_path
unlisted_iff actual m manifest_path =
    let (there, back) = is_empty_iff (unlisted actual m manifest_path) in
    let undeclared = difference actual (paths m) in
    let others = difference undeclared (manifest_path ∷ []) in
    (
      λ e a present. elim (Bool-cases (mem a (paths m))) [
        | inl declared ↦ inl (mem-Holds a (paths m) declared)
        | inr free ↦ elim (Bool-cases (manifest_path == a)) [
          | inl self ↦ inr (inl ((eq_iff manifest_path a).0 self))
          | inr other ↦ elim (Bool-cases (mem a m.allow_unlisted)) [
            | inl allowed ↦ inr (inr (mem-Holds a m.allow_unlisted allowed))
            | inr stray ↦
                let first =
                  (Holds-difference a actual (paths m)).1 (present, not-mem a (paths m) free) in
                let second =
                  (Holds-difference a undeclared (manifest_path ∷ [])).1
                    (first, not-mem a (manifest_path ∷ []) (ground arith)) in
                absurd (
                  there e a (
                    (Holds-difference a others m.allow_unlisted).1
                      (second, not-mem a m.allow_unlisted stray)))
          ]
        ]
      ],
      λ h. back λ a held.
          let (second, stray) = (Holds-difference a others m.allow_unlisted).0 held in
          let (first, other) = (Holds-difference a undeclared (manifest_path ∷ [])).0 second in
          let (present, free) = (Holds-difference a actual (paths m)).0 first in
          elim (h a present) [
            | inl declared ↦ free declared
            | inr (inl self) ↦ other (inl self)
            | inr (inr allowed) ↦ stray allowed
          ],
    )

coverage_status :
    (actual : List String) (m : Manifest) (manifest_path : String)
    → ((verify_coverage actual m manifest_path).status ≡ pass) ↔ (
        (is_empty (missing actual m) ≡ true)
        × (m.complete_coverage ≡ true → is_empty (unlisted actual m manifest_path) ≡ true))
unfolding verify_coverage
coverage_status actual m manifest_path = (
  λ e. (ground arith, λ complete. ground arith),
  λ (there, all_listed). elim (Bool-cases m.complete_coverage) [
    | inl complete ↦ ground (arith, all_listed complete)
    | inr partial ↦ ground arith
  ],
)

-- The coverage finding passes exactly when every declared file is in the artifact and, under
-- complete coverage, every file of the artifact is declared, allowed, or the manifest itself.
pub coverage_verdict :
    (actual : List String) (m : Manifest) (manifest_path : String)
    → ((verify_coverage actual m manifest_path).status ≡ pass)
      ↔ (Present actual m × (m.complete_coverage ≡ true → Listed actual m manifest_path))
coverage_verdict actual m manifest_path =
    let (there, back) = coverage_status actual m manifest_path in
    let found = missing_iff actual m in
    let listed = unlisted_iff actual m manifest_path in
    (
      λ e. (found.0 (there e).0, λ complete. listed.0 ((there e).1 complete)),
      λ h. back (found.1 h.0, λ complete. listed.1 (h.1 complete)),
    )
