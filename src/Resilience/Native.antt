-- ===== src/Resilience/Native.antt =====
-- resilience/errors.py: `SightStalkerError.__init__`, with the defaults of each subclass.
use sight_stalker.Prelude.{ℕ, [], Option, none, Text, codes, or_else}
use sight_stalker.Models.Json.{Fields}
use sight_stalker.Errors.{
  ProjectError, ErrorKind, usage, configuration, security_refusal, browser_runtime, persistence,
  diagnostic, timeout, internal, ErrorSeverity, error, Recoverability, user_action_required,
  do_not_retry, unknown,
}
use sight_stalker.Security.Redaction.{TextLibrary}
use sight_stalker.Security.Operator.{sanitize_operator_message, sanitize_operator_details}

-- The class attributes.
pub record ErrorClass : Type 0 where
  pub class_name : Text
  pub kind : ErrorKind
  pub severity : ErrorSeverity
  pub recoverability : Recoverability
  pub exit_code : ℕ
  pub public_type : Text

-- The keyword arguments.
pub record Overrides : Type 0 where
  pub kind : Option ErrorKind
  pub severity : Option ErrorSeverity
  pub recoverability : Option Recoverability
  pub exit_code : Option ℕ
  pub public_type : Option Text
  pub code : Option Text
  pub details : Option Fields

abbrev pub no_overrides : Overrides
no_overrides = record {
  kind = none;
  severity = none;
  recoverability = none;
  exit_code = none;
  public_type = none;
  code = none;
  details = none;
}

unfoldable pub native_error : TextLibrary → ErrorClass → Text → Overrides → ProjectError
unfolding sanitize_operator_message sanitize_operator_details
native_error lib cls message o = record {
  class_name = cls.class_name;
  message = sanitize_operator_message lib message;
  kind = or_else o.kind cls.kind;
  severity = or_else o.severity cls.severity;
  recoverability = or_else o.recoverability cls.recoverability;
  exit_code = or_else o.exit_code cls.exit_code;
  public_type = or_else o.public_type cls.public_type;
  code = o.code;
  details = sanitize_operator_details lib o.details;
  warnings = [];
}

abbrev of_class : Text → ErrorKind → Recoverability → ℕ → Text → ErrorClass
of_class name kind recoverability exit_code public_type = record {
  class_name = name;
  kind = kind;
  severity = error;
  recoverability = recoverability;
  exit_code = exit_code;
  public_type = public_type;
}

-- The classes of the module.
pub data NativeClass : Type 0 where
  sight_stalker_error resilience_error usage_error configuration_error security_refusal_error :
      NativeClass
  browser_runtime_error persistence_failure diagnostic_failure timeout_failure : NativeClass

unfoldable pub attributes : NativeClass → ErrorClass
attributes sight_stalker_error =
    of_class (codes "SightStalkerError") internal unknown 1 (codes "InternalError")
attributes resilience_error =
    of_class (codes "ResilienceError") internal unknown 1 (codes "InternalError")
attributes usage_error =
    of_class (codes "UsageError") usage user_action_required 2 (codes "UsageError")
attributes configuration_error =
    of_class (codes "ConfigurationError") configuration user_action_required 2 (codes "UsageError")
attributes security_refusal_error =
    of_class (codes "SecurityRefusal") security_refusal do_not_retry 6 (codes "SecurityError")
attributes browser_runtime_error =
    of_class (codes "BrowserRuntimeError") browser_runtime user_action_required 4
      (codes "BrowserError")
attributes persistence_failure =
    of_class (codes "PersistenceFailure") persistence user_action_required 3
      (codes "PersistenceError")
attributes diagnostic_failure =
    of_class (codes "DiagnosticFailure") diagnostic unknown 5 (codes "DiagnosticError")
attributes timeout_failure =
    of_class (codes "TimeoutFailure") timeout unknown 1 (codes "InternalError")
