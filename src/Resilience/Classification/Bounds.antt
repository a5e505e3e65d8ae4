-- ===== src/Resilience/Classification/Bounds.antt =====
-- `classify_exception` and the renderings on every exception.
use sight_stalker.Prelude.{
  ℕ, ◌≡◌, refl, ◌≤◌, true, false, Option, none, some, Text, ok, raised, Outcome, arith, length,
  Bool-cases, inl, inr, ltb,
}
use sight_stalker.Models.Json.{Fields}
use sight_stalker.Errors.{
  Exc, ExcClass, plain, project, cli, keyboard_interrupt, system_exit, cancelled_error,
  other_base_exception, value_error, profile_lock_unavailable, other_exception,
  persistence_security_error, persistence_error, diagnostic_error, diagnostic_persistence_error,
  session_lifecycle_error, session_state_error, artifact_error, operational_error, sqlalchemy_error,
}
use sight_stalker.Security.Redaction.{TextLibrary}
use sight_stalker.Security.Operator.{sanitize_operator_details}
use sight_stalker.Security.Operator.Messages.{length-sanitize_operator_message}
use sight_stalker.Security.Mapping.{AreFieldsRedacted, sanitize_operator_details-redacts}
use sight_stalker.Resilience.Operator.{OperatorError, make_operator_error, invalid_exit_code}
use sight_stalker.Resilience.Native.{ErrorClass, Overrides, native_error}
use sight_stalker.Resilience.Classification.{
  described, not_initialized, persistence_failed, classify_service_exception, classify_cli_error,
  classify_native, or_internal, classify_exception,
}
use sight_stalker.Resilience.Classification.Labels.{is_interrupt}

-- The exit code that an exception brings along; the others get one from the classifier.
abbrev pub own_exit_code : Exc → ℕ
own_exit_code (project e) = e.exit_code
own_exit_code (cli e) = e.exit_code
own_exit_code (plain cls name text) = 1

-- An interrupt is raised again unchanged; all else is told with an exit code of at most 6.
abbrev pub IsTold : Exc → Outcome Exc OperatorError → Type 0
IsTold e (ok told) = (is_interrupt e ≡ false) × (told.exit_code ≤ 6)
IsTold e (raised again) = (is_interrupt e ≡ true) × (again ≡ e)

AreDetailsRedacted : TextLibrary → Option Fields → Type 0
AreDetailsRedacted lib none = Unit
AreDetailsRedacted lib (some details) = AreFieldsRedacted lib details

-- An error made by `SightStalkerError.__init__` is told with its sanitized texts.
abbrev pub IsSanitized : TextLibrary → Outcome Exc OperatorError → Type 0
unfolding AreDetailsRedacted
IsSanitized lib (ok told) = (length told.message ≤ 2003) × AreDetailsRedacted lib told.details
IsSanitized lib (raised e) = e ≡ invalid_exit_code

module _ (lib : TextLibrary) where
  make-IsTold :
      (e : Exc) (told : OperatorError)
      → is_interrupt e ≡ false
      → told.exit_code ≤ 6
      → IsTold e (make_operator_error told)
  unfolding make_operator_error
  make-IsTold e told i h = ground arith

  service_exit_code :
      (cls : ExcClass) (name text : Text)
      → (or_internal lib text (classify_service_exception lib (plain cls name text))).exit_code ≤ 6
  unfolding or_internal classify_service_exception persistence_failed described not_initialized
  service_exit_code keyboard_interrupt name text = ground arith
  service_exit_code system_exit name text = ground arith
  service_exit_code cancelled_error name text = ground arith
  service_exit_code other_base_exception name text = ground arith
  service_exit_code persistence_security_error name text = ground arith
  service_exit_code persistence_error name text = ground arith
  service_exit_code diagnostic_error name text = ground arith
  service_exit_code diagnostic_persistence_error name text = ground arith
  service_exit_code session_lifecycle_error name text = ground arith
  service_exit_code session_state_error name text = ground arith
  service_exit_code artifact_error name text = ground arith
  service_exit_code operational_error name text = ground arith
  service_exit_code sqlalchemy_error name text = ground arith
  service_exit_code value_error name text = ground arith
  service_exit_code profile_lock_unavailable name text = ground arith
  service_exit_code other_exception name text = ground arith

  plain-IsTold :
      (cls : ExcClass) (name text : Text)
      → is_interrupt (plain cls name text) ≡ false
      → IsTold (plain cls name text) (
          make_operator_error
            (or_internal lib text (classify_service_exception lib (plain cls name text))))
  plain-IsTold cls name text i =
      make-IsTold (plain cls name text) _ i (service_exit_code cls name text)

  -- `classify_exception` never fails on its own account: of every exception whose own exit code is at
  -- most 6 it makes an operator error with an exit code of at most 6, but that it raises
  -- `KeyboardInterrupt` and `SystemExit` again, unchanged.
  pub classify_exception-IsTold :
      (e : Exc) → own_exit_code e ≤ 6 → IsTold e (classify_exception lib e)
  unfolding classify_exception classify_native classify_cli_error described
  classify_exception-IsTold (project e) h = make-IsTold (project e) _ refl h
  classify_exception-IsTold (cli e) h = make-IsTold (cli e) _ refl h
  classify_exception-IsTold (plain keyboard_interrupt name text) h = (refl, refl)
  classify_exception-IsTold (plain system_exit name text) h = (refl, refl)
  classify_exception-IsTold (plain cancelled_error name text) h =
      plain-IsTold cancelled_error name text refl
  classify_exception-IsTold (plain other_base_exception name text) h =
      plain-IsTold other_base_exception name text refl
  classify_exception-IsTold (plain persistence_security_error name text) h =
      plain-IsTold persistence_security_error name text refl
  classify_exception-IsTold (plain persistence_error name text) h =
      plain-IsTold persistence_error name text refl
  classify_exception-IsTold (plain diagnostic_error name text) h =
      plain-IsTold diagnostic_error name text refl
  classify_exception-IsTold (plain diagnostic_persistence_error name text) h =
      plain-IsTold diagnostic_persistence_error name text refl
  classify_exception-IsTold (plain session_lifecycle_error name text) h =
      plain-IsTold session_lifecycle_error name text refl
  classify_exception-IsTold (plain session_state_error name text) h =
      plain-IsTold session_state_error name text refl
  classify_exception-IsTold (plain artifact_error name text) h =
      plain-IsTold artifact_error name text refl
  classify_exception-IsTold (plain operational_error name text) h =
      plain-IsTold operational_error name text refl
  classify_exception-IsTold (plain sqlalchemy_error name text) h =
      plain-IsTold sqlalchemy_error name text refl
  classify_exception-IsTold (plain value_error name text) h =
      plain-IsTold value_error name text refl
  classify_exception-IsTold (plain profile_lock_unavailable name text) h =
      plain-IsTold profile_lock_unavailable name text refl
  classify_exception-IsTold (plain other_exception name text) h =
      plain-IsTold other_exception name text refl

  details-AreDetailsRedacted :
      (details shown : Option Fields)
      → sanitize_operator_details lib details ≡ shown
      → AreDetailsRedacted lib shown
  unfolding AreDetailsRedacted sanitize_operator_details
  details-AreDetailsRedacted details none h = tt
  details-AreDetailsRedacted none (some shown) h = ground arith
  details-AreDetailsRedacted (some details) (some shown) h =
      sanitize_operator_details-redacts lib details shown h

  make-IsSanitized :
      (told : OperatorError)
      → length told.message ≤ 2003
      → AreDetailsRedacted lib told.details
      → IsSanitized lib (make_operator_error told)
  unfolding make_operator_error IsSanitized
  make-IsSanitized told h k = elim (Bool-cases (ltb 6 told.exit_code)) [
    | inl high ↦ rw high refl
    | inr low ↦ rw low (h, k)
  ]

  -- An error of the project's taxonomy, whatever its class, text and overrides, is told with at most
  -- 2003 characters of message and with redacted details, unless its exit code is refused.
  pub native_error-IsSanitized :
      (cls : ErrorClass) (text : Text) (o : Overrides)
      → IsSanitized lib (classify_exception lib (project (native_error lib cls text o)))
  unfolding classify_exception classify_native native_error
  native_error-IsSanitized cls text o =
      make-IsSanitized (classify_native lib (native_error lib cls text o))
        (length-sanitize_operator_message lib text) (details-AreDetailsRedacted o.details _ refl)
