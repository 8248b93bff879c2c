-- ===== src/Checks/EnvironmentLaws.antt =====
-- What the environment finding says of the machine.
use artifact_proof_lab.Base.{
  String, ◌≡◌, refl, sym, ◌∙◌, ◌↔◌, true, Option, none, some, some-eq, Bool-cases, inl, inr, arith,
  eq_iff,
}
use artifact_proof_lab.Model.{pass, fail}
use artifact_proof_lab.Platform.{Platform}
use artifact_proof_lab.Manifest.Types.{Environment}
use artifact_proof_lab.Checks.Declared.{machine_matches, environment_matches, environment_finding}

-- The reference names this interpreter and system, and this machine if it names one.
pub record Matches (platform : Platform) (e : Environment) : Type 0 where
  pub implementation : e.python_implementation ≡ platform.python_implementation
  pub major : e.python_major ≡ platform.python_major
  pub minor : e.python_minor ≡ platform.python_minor
  pub system : e.platform_system ≡ platform.platform_system
  pub machine : (m : String) → e.platform_machine ≡ some m → m ≡ platform.platform_machine

machine_matches_iff :
    (platform : Platform) (o : Option String)
    → (machine_matches platform o ≡ true)
      ↔ ((m : String) → o ≡ some m → m ≡ platform.platform_machine)
machine_matches_iff platform none = (λ _ m e. cc, λ _. refl)
machine_matches_iff platform (some k) = (
  λ h m e. sym (some-eq e) ∙ (eq_iff k platform.platform_machine).0 h,
  λ h. (eq_iff k platform.platform_machine).1 (h k refl),
)

environment_matches_iff :
    (platform : Platform) (e : Environment)
    → (environment_matches platform e ≡ true) ↔ Matches platform e
unfolding environment_matches
environment_matches_iff platform e =
    let (there, back) = machine_matches_iff platform e.platform_machine in
    (
      λ h. record {
        implementation =
            (eq_iff e.python_implementation platform.python_implementation).0 (ground arith);
        major = ground arith;
        minor = ground arith;
        system = (eq_iff e.platform_system platform.platform_system).0 (ground arith);
        machine = there (ground arith);
      },
      λ h.
          let i =
            (eq_iff e.python_implementation platform.python_implementation).1 h.implementation in
          let s = (eq_iff e.platform_system platform.platform_system).1 h.system in
          let m = back h.machine in let a = h.major in let b = h.minor in ground arith,
    )

-- The environment finding passes exactly when the environment matches the reference, and it fails
-- exactly when it does not match one that is enforced.
pub environment_verdict :
    (platform : Platform) (check_id : String) (e : Environment)
    → let verdict = (environment_finding platform check_id e).status in
      ((verdict ≡ pass) ↔ Matches platform e)
      × ((verdict ≡ fail) ↔ ((¬ Matches platform e) × (e.enforce ≡ true)))
unfolding environment_finding
environment_verdict platform check_id e =
    let (there, back) = environment_matches_iff platform e in
    elim (Bool-cases (environment_matches platform e)) [
      | inl matches ↦ (
        (λ _. there matches, λ _. ground arith),
        (λ h. ground arith, λ h. absurd (h.0 (there matches))),
      )
      | inr differs ↦ (
        (λ h. ground arith, λ h. cc (back h, differs)),
        (λ h. (λ m. cc (back m, differs), ground arith), λ h. ground arith),
      )
    ]
