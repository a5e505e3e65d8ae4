-- ===== src/Resilience/Classification/Labels.antt =====
-- The label, the kind and the exit code of a classified exception go together.
use sight_stalker.Prelude.{
  ℕ, ◌≡◌, refl, ◌≤◌, Bool, true, false, Text, ok, arith, sym, text_eq, length, Bool-cases, inl, inr,
}
use mathlib.Core.Path.{subst}
use sight_stalker.Errors.{
  Exc, ExcClass, plain, keyboard_interrupt, system_exit, cancelled_error, other_base_exception,
  value_error, profile_lock_unavailable, other_exception, persistence_security_error,
  persistence_error, diagnostic_error, diagnostic_persistence_error, session_lifecycle_error,
  session_state_error, artifact_error, operational_error, sqlalchemy_error, ErrorKind, usage,
  configuration, security_refusal, browser_runtime, persistence, artifact, diagnostic, integrity,
  internal,
}
use sight_stalker.Security.Redaction.{TextLibrary}
use sight_stalker.Security.Operator.{sanitize_operator_message}
use sight_stalker.Security.Operator.Messages.{length-sanitize_operator_message}
use sight_stalker.Resilience.Operator.{OperatorError, make_operator_error}
use sight_stalker.Resilience.Classification.{
  default_type_for_kind, kind_for_cli_label, looks_like_missing_schema, described, not_initialized,
  persistence_failed, classify_service_exception, or_internal, classify_exception,
}

-- The exit codes of the command line.
abbrev pub exit_code_for_kind : ErrorKind → ℕ
exit_code_for_kind usage = 2
exit_code_for_kind configuration = 2
exit_code_for_kind persistence = 3
exit_code_for_kind browser_runtime = 4
exit_code_for_kind diagnostic = 5
exit_code_for_kind security_refusal = 6
exit_code_for_kind _ = 1

pub record IsConsistent (e : OperatorError) : Type 0 where
  pub type : default_type_for_kind e.kind ≡ e.type
  pub label : kind_for_cli_label e.type ≡ e.kind
  pub exit_code : exit_code_for_kind e.kind ≡ e.exit_code
  pub message : length e.message ≤ 2003

-- No interrupt, which is never classified.
abbrev pub is_interrupt : Exc → Bool
is_interrupt (plain keyboard_interrupt name text) = true
is_interrupt (plain system_exit name text) = true
is_interrupt _ = false

module _ (lib : TextLibrary) where
  persistence_failed-IsConsistent :
      (e : Exc) (text : Text) → IsConsistent (persistence_failed lib e text)
  unfolding persistence_failed described not_initialized default_type_for_kind kind_for_cli_label
  persistence_failed-IsConsistent e text = elim (Bool-cases (looks_like_missing_schema lib e)) [
    | inl missing ↦
        rw missing (record { type = refl; label = refl; exit_code = refl; message = omega arith })
    | inr other ↦ rw other (record {
      type = refl;
      label = refl;
      exit_code = refl;
      message = length-sanitize_operator_message lib text;
    })
  ]

  -- The fields that the sites of `_classify_service_exception` write out.
  described-IsConsistent :
      (kind : ErrorKind) (e : OperatorError) (text : Text)
      → default_type_for_kind kind ≡ e.type
      → kind_for_cli_label e.type ≡ kind
      → exit_code_for_kind kind ≡ e.exit_code
      → e.kind ≡ kind
      → e.message ≡ sanitize_operator_message lib text
      → IsConsistent e
  described-IsConsistent kind e text t l x k m = record {
    type = cc;
    label = cc;
    exit_code = cc;
    message = subst (λ text. length text ≤ 2003) (cc m) (length-sanitize_operator_message lib text);
  }

  service-IsConsistent :
      (cls : ExcClass) (name text : Text)
      → IsConsistent (or_internal lib text (classify_service_exception lib (plain cls name text)))
  unfolding or_internal classify_service_exception described default_type_for_kind
      kind_for_cli_label
  service-IsConsistent keyboard_interrupt name text =
      described-IsConsistent internal _ text refl refl refl refl refl
  service-IsConsistent system_exit name text =
      described-IsConsistent internal _ text refl refl refl refl refl
  service-IsConsistent cancelled_error name text =
      described-IsConsistent internal _ text refl refl refl refl refl
  service-IsConsistent other_base_exception name text =
      described-IsConsistent internal _ text refl refl refl refl refl
  service-IsConsistent persistence_security_error name text =
      described-IsConsistent security_refusal _ text refl refl refl refl refl
  service-IsConsistent persistence_error name text =
      persistence_failed-IsConsistent (plain persistence_error name text) text
  service-IsConsistent diagnostic_error name text =
      described-IsConsistent diagnostic _ text refl refl refl refl refl
  service-IsConsistent diagnostic_persistence_error name text =
      described-IsConsistent diagnostic _ text refl refl refl refl refl
  service-IsConsistent session_lifecycle_error name text =
      described-IsConsistent browser_runtime _ text refl refl refl refl refl
  service-IsConsistent session_state_error name text =
      described-IsConsistent integrity _ text refl refl refl refl refl
  service-IsConsistent artifact_error name text =
      described-IsConsistent artifact _ text refl refl refl refl refl
  service-IsConsistent operational_error name text =
      persistence_failed-IsConsistent (plain operational_error name text) text
  service-IsConsistent sqlalchemy_error name text =
      persistence_failed-IsConsistent (plain sqlalchemy_error name text) text
  service-IsConsistent value_error name text =
      described-IsConsistent internal _ text refl refl refl refl refl
  service-IsConsistent profile_lock_unavailable name text =
      described-IsConsistent internal _ text refl refl refl refl refl
  service-IsConsistent other_exception name text =
      described-IsConsistent internal _ text refl refl refl refl refl

  make_operator_error-ok : (e made : OperatorError) → make_operator_error e ≡ ok made → made ≡ e
  unfolding make_operator_error
  make_operator_error-ok e made h = ground arith

  made-IsConsistent :
      (cls : ExcClass) (name text : Text) (e : OperatorError)
      → make_operator_error
          (or_internal lib text (classify_service_exception lib (plain cls name text)))
        ≡ ok e
      → IsConsistent e
  made-IsConsistent cls name text e h =
      subst IsConsistent (sym (make_operator_error-ok _ e h)) (service-IsConsistent cls name text)

  -- An exception that is neither of the project's taxonomy nor of the command line is told with the
  -- label that stands for its kind, a label that the command line's table takes back to that kind, the
  -- exit code documented for the kind, and at most 2003 characters of message.
  pub classify_exception-IsConsistent :
      (cls : ExcClass) (name text : Text) (e : OperatorError)
      → classify_exception lib (plain cls name text) ≡ ok e
      → IsConsistent e
  unfolding classify_exception
  classify_exception-IsConsistent keyboard_interrupt name text e h = ground arith
  classify_exception-IsConsistent system_exit name text e h = ground arith
  classify_exception-IsConsistent cancelled_error name text e h =
      made-IsConsistent cancelled_error name text e h
  classify_exception-IsConsistent other_base_exception name text e h =
      made-IsConsistent other_base_exception name text e h
  classify_exception-IsConsistent persistence_security_error name text e h =
      made-IsConsistent persistence_security_error name text e h
  classify_exception-IsConsistent persistence_error name text e h =
      made-IsConsistent persistence_error name text e h
  classify_exception-IsConsistent diagnostic_error name text e h =
      made-IsConsistent diagnostic_error name text e h
  classify_exception-IsConsistent diagnostic_persistence_error name text e h =
      made-IsConsistent diagnostic_persistence_error name text e h
  classify_exception-IsConsistent session_lifecycle_error name text e h =
      made-IsConsistent session_lifecycle_error name text e h
  classify_exception-IsConsistent session_state_error name text e h =
      made-IsConsistent session_state_error name text e h
  classify_exception-IsConsistent artifact_error name text e h =
      made-IsConsistent artifact_error name text e h
  classify_exception-IsConsistent operational_error name text e h =
      made-IsConsistent operational_error name text e h
  classify_exception-IsConsistent sqlalchemy_error name text e h =
      made-IsConsistent sqlalchemy_error name text e h
  classify_exception-IsConsistent value_error name text e h =
      made-IsConsistent value_error name text e h
  classify_exception-IsConsistent profile_lock_unavailable name text e h =
      made-IsConsistent profile_lock_unavailable name text e h
  classify_exception-IsConsistent other_exception name text e h =
      made-IsConsistent other_exception name text e h
