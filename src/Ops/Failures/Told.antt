-- ===== src/Ops/Failures/Told.antt =====
-- The operator errors that the failures of a run's phases become.
use sight_stalker.Prelude.{◌≡◌, refl, ℕ, true, false, Text, codes, Outcome, ok, raised}
use sight_stalker.Errors.{Exc, class_name, is_exception}
use sight_stalker.Security.Redaction.{TextLibrary}
use sight_stalker.Resilience.Operator.{OperatorError, make_operator_error}
use sight_stalker.Resilience.Native.{native_error, attributes}
use sight_stalker.Resilience.Classification.{classify_exception}
use sight_stalker.Ops.Modes.{raise_native}
use sight_stalker.Ops.Failures.{
  FailurePhase, initializer, plan, is_process_control, is_project, phase_failure, run_failure,
  wrapped, config_failure, enter_failure, persist_failure,
}

-- Told with this exit code and this label.
abbrev pub IsToldWith : ℕ → Text → Outcome Exc OperatorError → Type 0
IsToldWith exit_code label (raised e) = ⊥
IsToldWith exit_code label (ok told) = (told.exit_code ≡ exit_code) × (told.type ≡ label)

abbrev pub phase_exit_code : FailurePhase → ℕ
phase_exit_code initializer = 2
phase_exit_code plan = 4

abbrev pub phase_label : FailurePhase → Text
phase_label initializer = codes "UsageError"
phase_label plan = codes "BrowserError"

module _ (lib : TextLibrary) where
  phase_failure-told :
      (phase : FailurePhase) (e : Exc)
      → IsToldWith
          (phase_exit_code phase)
          (phase_label phase)
          (classify_exception lib (phase_failure lib phase e))
  unfolding phase_failure raise_native classify_exception native_error attributes
      make_operator_error
  phase_failure-told initializer e = (refl, refl)
  phase_failure-told plan e = (refl, refl)

  -- An `Exception` that is no error of the project is told by where it came up: from the configuration
  -- check as a refusal with exit code 6, from entering or the plan as a browser error with 4, from an
  -- initializer as a usage error with 2, and from the transaction as a persistence error with 3.
  pub failures-IsToldWith :
      (phase : FailurePhase) (e : Exc)
      → is_project lib e ≡ false
      → is_exception e ≡ true
      → is_process_control lib e ≡ false
      → IsToldWith 6 (codes "SecurityError") (classify_exception lib (config_failure lib e))
        × IsToldWith 4 (codes "BrowserError") (classify_exception lib (enter_failure lib e))
        × IsToldWith
            (phase_exit_code phase)
            (phase_label phase)
            (classify_exception lib (run_failure lib phase e))
        × IsToldWith 3 (codes "PersistenceError") (classify_exception lib (persist_failure lib e))
  unfolding config_failure enter_failure persist_failure wrapped run_failure raise_native
      classify_exception native_error attributes make_operator_error
  failures-IsToldWith phase e p x c = (
    rw (p, x) (refl, refl),
    rw (p, x) (refl, refl),
    rw (p, c) (phase_failure-told phase e),
    rw (p, x) (refl, refl),
  )

  phase_failure-eq :
      (phase : FailurePhase) (e e' : Exc)
      → class_name e ≡ class_name e'
      → phase_failure lib phase e ≡ phase_failure lib phase e'
  unfolding phase_failure
  phase_failure-eq initializer e e' n = rw n refl
  phase_failure-eq plan e e' n = rw n refl

  -- Of such exceptions only the class name is told: two of them with one class name lead to the same
  -- error, whatever their messages are.
  pub failures_hide :
      (phase : FailurePhase) (e e' : Exc)
      → class_name e ≡ class_name e'
      → is_project lib e ≡ false
      → is_exception e ≡ true
      → is_process_control lib e ≡ false
      → is_project lib e' ≡ false
      → is_exception e' ≡ true
      → is_process_control lib e' ≡ false
      → (config_failure lib e ≡ config_failure lib e')
        × (enter_failure lib e ≡ enter_failure lib e')
        × (run_failure lib phase e ≡ run_failure lib phase e')
        × (persist_failure lib e ≡ persist_failure lib e')
  unfolding config_failure enter_failure persist_failure wrapped run_failure
  failures_hide phase e e' n p x c p' x' c' = (
    rw (p, x, p', x', n) refl,
    rw (p, x, p', x', n) refl,
    rw (p, c, p', c') (phase_failure-eq phase e e' n),
    rw (p, x, p', x', n) refl,
  )
