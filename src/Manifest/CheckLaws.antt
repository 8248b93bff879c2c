-- ===== src/Manifest/CheckLaws.antt =====
-- A check that the parser accepts fits the declared files.
use artifact_proof_lab.Base.{
  ℕ, String, Bool-cases, inl, inr, ◌≡◌, ◌≢◌, refl, ◌≤◌, suc, true, Option, some, List, [], ◌∷◌, all,
  All, Holds, mem, mem-Holds, length, arith, ◌==◌,
}
use artifact_proof_lab.Base.Outcome.{
  Result, traverse, Ensures, holds, raised, Ensures-all, Ensures-bind, Ensures-require,
  Ensures-traverse, Ensures-both,
}
use artifact_proof_lab.Json.{Json, Fields, Number, arr, cons, elements}
use artifact_proof_lab.Platform.{Platform}
use artifact_proof_lab.Manifest.Types.{FileSpec, supported_profiles}
use artifact_proof_lab.Manifest.Check.{
  parse_profiles, two_operands, pointer_operand, file_operand, parse_operand, parse_sqlite,
  parse_zip_member, parse_binding, parse_environment, parse_config, parse_check, text_value,
}
use artifact_proof_lab.Manifest.Fits.{OperandFits, ConfigFits, CheckFits, paths}
use artifact_proof_lab.Manifest.ShapeLaws.{
  nonempty-Ensures, parse_pointer-Ensures, path-Ensures, declared_path-Ensures,
}

-- A step of which nothing is needed.
abbrev pub Anything {ℓ} : {A : Type ℓ} → A → Type 0
Anything _ = Unit

pub Ensures-any {ℓ} : {A : Type ℓ} (r : Result A) → Ensures Anything r
Ensures-any r = Ensures-all (λ _ _. tt)

length-traverse {ℓ κ} :
    {A : Type ℓ} {B : Type κ} (f : A → Result B) (xs : List A)
    → Ensures (λ ys. length ys ≡ length xs) (traverse f xs)
unfolding traverse
length-traverse f [] = holds refl
length-traverse f (x ∷ xs) =
    Ensures-bind (Ensures-any (f x))
      λ y _. Ensures-bind (length-traverse f xs) λ ys e. holds (omega arith)

all-supported :
    (ps : List String)
    → all (λ p. mem p supported_profiles) ps ≡ true
    → All (λ p. Holds p supported_profiles) ps
all-supported [] h = tt
all-supported (p ∷ ps) h =
    (mem-Holds p supported_profiles (ground arith), all-supported ps (ground arith))

abbrev Usable : List String → Type 0
Usable ps = (ps ≢ []) × All (λ p. Holds p supported_profiles) ps

cons-ne-nil {ℓ} : {A : Type ℓ} (xs : List A) {n : ℕ} → length xs ≡ suc n → xs ≢ []
cons-ne-nil [] h e = absurd (omega arith)
cons-ne-nil (x ∷ xs) h e = cc

profiles-Ensures : (v : Json Number) → Ensures Usable (parse_profiles v)
unfolding parse_profiles elements
profiles-Ensures (arr (cons v vs)) = Ensures-bind (Ensures-any _) λ _ _.
    Ensures-bind (length-traverse text_value _) λ ps size.
      Ensures-bind (Ensures-require _ _)
        λ _ supported. holds (cons-ne-nil ps size, all-supported ps supported)
profiles-Ensures _ = raised

module _ (platform : Platform) (files : List (String × FileSpec)) where
  abbrev names : List String
  names = paths files

  operand-Ensures :
      (raw : Json Number) → Ensures (OperandFits platform names) (parse_operand platform files raw)
  unfolding parse_operand
  operand-Ensures raw = Ensures-bind (Ensures-any _) λ value _.
      Ensures-bind (Ensures-any _) λ kind _. elim (Bool-cases (kind == "json_pointer")) [
        | inl e ↦ rw e (at_pointer value)
        | inr e ↦ rw e (elim (Bool-cases (kind == "file_sha256")) [
          | inl e' ↦ rw e' (at_file value)
          | inr e' ↦ rw e' raised
        ])
      ]
    where
      at_pointer :
          (value : Fields Number)
          → Ensures (OperandFits platform names) (pointer_operand platform files value)
      at_pointer value = Ensures-bind (Ensures-any _) λ _ _.
          Ensures-bind (declared_path-Ensures platform files _)
            λ p there. Ensures-bind (parse_pointer-Ensures _) λ pointer fine. holds (there, fine)

      at_file :
          (value : Fields Number)
          → Ensures (OperandFits platform names) (file_operand platform files value)
      at_file value =
          Ensures-bind (Ensures-any _)
            λ _ _. Ensures-bind (declared_path-Ensures platform files _) λ p there. holds there

  sqlite-Ensures :
      (value : Fields Number)
      → Ensures (ConfigFits platform names) (parse_sqlite platform files value)
  unfolding parse_sqlite
  sqlite-Ensures value = Ensures-bind (Ensures-any _) λ _ _.
      Ensures-bind (declared_path-Ensures platform files _)
        λ p there. Ensures-bind (Ensures-any _) λ mode _. holds there

  zip_member-Ensures :
      (value : Fields Number)
      → Ensures (ConfigFits platform names) (parse_zip_member platform files value)
  unfolding parse_zip_member
  zip_member-Ensures value = Ensures-bind (Ensures-any _) λ _ _.
      Ensures-bind (declared_path-Ensures platform files _) λ archive has_archive.
        Ensures-bind (declared_path-Ensures platform files _) λ target has_target.
          Ensures-bind (path-Ensures platform _) λ member fine.
            Ensures-bind (Ensures-any _) λ only _. holds (has_archive, has_target, fine)

  two_operands-Ensures : (v : Option (Json Number)) → Ensures (λ xs. 2 ≤ length xs) (two_operands v)
  two_operands-Ensures (some (arr (cons v (cons w vs)))) = holds (omega arith)
  two_operands-Ensures _ = raised

  binding-Ensures :
      (value : Fields Number)
      → Ensures (ConfigFits platform names) (parse_binding platform files value)
  unfolding parse_binding
  binding-Ensures value = Ensures-bind (Ensures-any _) λ _ _.
      Ensures-bind (two_operands-Ensures _) λ raw two.
        Ensures-bind
          (Ensures-both (length-traverse (parse_operand platform files) raw)
            (Ensures-traverse raw operand-Ensures))
          λ ops (same, fits). holds (omega arith, fits)

  environment-Ensures :
      (value : Fields Number) → Ensures (ConfigFits platform names) (parse_environment value)
  unfolding parse_environment
  environment-Ensures value = Ensures-bind (Ensures-any _) λ _ _.
      Ensures-bind (nonempty-Ensures _) λ implementation filled.
        Ensures-bind (Ensures-any _) λ version _. Ensures-bind (nonempty-Ensures _) λ system named.
          Ensures-bind (Ensures-any _)
            λ machine _. Ensures-bind (Ensures-any _) λ enforce _. holds (filled, named)

  config-Ensures :
      (kind : String) (value : Fields Number)
      → Ensures (ConfigFits platform names) (parse_config platform files kind value)
  unfolding parse_config
  config-Ensures kind value = elim (Bool-cases (kind == "sqlite_integrity")) [
    | inl e ↦ rw e (sqlite-Ensures value)
    | inr e ↦ rw e (elim (Bool-cases (kind == "zip_member_matches")) [
      | inl e' ↦ rw e' (zip_member-Ensures value)
      | inr e' ↦ rw e' (elim (Bool-cases (kind == "value_binding")) [
        | inl e'' ↦ rw e'' (binding-Ensures value)
        | inr e'' ↦ rw e'' (environment-Ensures value)
      ])
    ])
  ]

  pub check-Ensures :
      (raw : Json Number) → Ensures (CheckFits platform names) (parse_check platform files raw)
  unfolding parse_check
  check-Ensures raw = Ensures-bind (Ensures-any _) λ value _.
      Ensures-bind (nonempty-Ensures _) λ check_id filled. Ensures-bind (Ensures-any _) λ kind _.
        Ensures-bind (Ensures-any _) λ _ _.
          Ensures-bind (profiles-Ensures _) λ profiles (active, supported).
            Ensures-bind (config-Ensures kind value) λ config fits.
              holds (record {
                identified = filled;
                active = active;
                profiles = supported;
                config = fits;
              })
