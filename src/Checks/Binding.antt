-- ===== src/Checks/Binding.antt =====
-- `_value_binding` and `_read_strict_json` of src/artifact_proof/checks.py.

use Prim.Native.String.{◌++◌ as append}
use artifact_proof_lab.Base.{
  String, Bool, true, false, ◌&&◌, Option, none, some, List, [], ◌∷◌, map, all, eqb, ◌==◌,
  if◌then◌else◌,
}
use artifact_proof_lab.Base.Outcome.{Exception, source_error, value_error, Result, ok, raise}
use artifact_proof_lab.Base.Outcome
use artifact_proof_lab.Base.Exec.{Exec, pure, lift, ◌>>=◌, try_except}
use artifact_proof_lab.Json.{
  Json, Number, Decimal, str, arr, obj, unique_value, items_of, fields_of,
}
use artifact_proof_lab.Json.Dump.{Codes}
use artifact_proof_lab.Model.{pass, fail, Finding}
use artifact_proof_lab.Platform.{Platform, Decoded, not_utf8, malformed, failed, tree}
use artifact_proof_lab.Manifest.Types.{Operand, json_pointer, file_sha256}
use artifact_proof_lab.Source.Interface.{ArtifactSource, sha256}
use artifact_proof_lab.Checks.Identity.{finding}
use artifact_proof_lab.Checks.Pointer.{resolve_json_pointer}
use artifact_proof_lab.Checks.Normal.{canonical_json_value}

-- The decoded document with its hooks. Every failure here is of a kind that the check catches.
unfoldable pub decode_strict : Decoded Decimal → Result (Json Decimal)
unfolding unique_value
decode_strict not_utf8 = raise (value_error "UnicodeDecodeError")
decode_strict malformed = raise (value_error "JSONDecodeError")
decode_strict (failed m) = raise (value_error m)
decode_strict (tree v) =
    Outcome.◌>>=◌ (unique_value (value_error "duplicate JSON key") v) (λ _. ok v)

abbrev pub Documents : Type 0
Documents = List (String × Json Decimal)

unfoldable pub find_document : String → Documents → Option (Json Decimal)
find_document p [] = none
find_document p ((q, v) ∷ ds) = if q == p then some v else find_document p ds

-- An operand's label and the canonical bytes of its value.
abbrev pub Bound : Type 0
Bound = String × Codes

unfoldable pub same_codes : Codes → Codes → Bool
same_codes [] [] = true
same_codes (x ∷ xs) (y ∷ ys) = eqb x y && same_codes xs ys
same_codes _ _ = false

module _ (platform : Platform) where
  abbrev bound_value : Bound → Json Number
  bound_value (label, bytes) =
      obj (fields_of (("operand", str label) ∷ ("value_sha256", str (platform.sha256 bytes)) ∷ []))

  -- The finding on the values that were bound, which are at least two.
  unfoldable pub binding_finding : String → List Bound → Result Finding
  unfolding same_codes
  binding_finding check_id [] = raise (value_error "IndexError")
  binding_finding check_id (reference ∷ others) =
      let passed = all (λ b. same_codes b.1 reference.1) others in
      ok (
        finding check_id "value_binding" (if passed then pass else fail)
          (if passed then "all bound values are semantically identical" else "bound values differ")
          (some (bound_value reference))
          (some (arr (items_of (map bound_value (reference ∷ others))))))

  -- `except (SourceError, UnicodeDecodeError, ..., ValueError)`
  unfoldable pub binding_failed : String → Exception → Result Finding
  binding_failed check_id (source_error m) =
      ok (finding check_id "value_binding" fail "value binding inspection failed" none none)
  binding_failed check_id (value_error m) =
      ok (finding check_id "value_binding" fail "value binding inspection failed" none none)
  binding_failed check_id e = raise e

module _ {S : Type 0} (platform : Platform) (source : ArtifactSource S) where
  -- _read_strict_json
  unfoldable pub read_strict_json : String → Exec S (Json Decimal)
  unfolding decode_strict
  read_strict_json path = do
    bytes ← source.read_bytes path none
    lift (decode_strict (platform.loads_strict bytes))

  -- A document is read and decoded once.
  unfoldable pub load_document : Documents → String → Exec S (Json Decimal × Documents)
  unfolding read_strict_json find_document
  load_document documents path = elim (find_document path documents) [
    | some v ↦ pure (v, documents)
    | none ↦ do v ← read_strict_json path; pure (v, (path, v) ∷ documents)
  ]

  -- The body of the loop over the operands.
  unfoldable pub bind_operand : Documents → Operand → Exec S (Bound × Documents)
  unfolding sha256 load_document resolve_json_pointer canonical_json_value
  bind_operand documents (file_sha256 path) = do
    digest ← sha256 platform source path
    pure ((append "file_sha256:" path, canonical_json_value (str digest)), documents)
  bind_operand documents (json_pointer path pointer) = do
    (document, documents') ← load_document documents path
    value ← lift (resolve_json_pointer platform document pointer)
    pure (
      (append "json_pointer:" (append path (append "#" pointer)), canonical_json_value value),
      documents',
    )

  unfoldable pub bind_operands : Documents → List Operand → Exec S (List Bound)
  unfolding bind_operand
  bind_operands documents [] = pure []
  bind_operands documents (operand ∷ operands) = do
    (bound, documents') ← bind_operand documents operand
    rest ← bind_operands documents' operands
    pure (bound ∷ rest)

  unfoldable pub check_value_binding : String → List Operand → Exec S Finding
  unfolding bind_operands binding_finding binding_failed
  check_value_binding check_id operands =
      try_except
        (do bound ← bind_operands [] operands; lift (binding_finding platform check_id bound))
        (binding_failed platform check_id)
