-- ===== src/Resilience/Classification.antt =====
-- resilience/classification.py. The layers' exception modules and SQLAlchemy are taken to be installed.
pub mod Labels
pub mod Bounds
use sight_stalker.Prelude.{
  ℕ, Bool, true, false, ◌||◌, List, [], ◌∷◌, Option, none, some, Text, codes, Outcome, ok, raised,
  is_some, ◌==◌, text_eq, if◌then◌else◌, or_else,
}
use sight_stalker.Models.Json.{Fields}
use sight_stalker.Errors.{
  Exc, ExcClass, ProjectError, CliError, project, cli, plain, keyboard_interrupt, system_exit,
  persistence_security_error, persistence_error, diagnostic_error, diagnostic_persistence_error,
  session_lifecycle_error, session_state_error, artifact_error, operational_error, sqlalchemy_error,
  ErrorKind, usage, configuration, security_refusal, browser_runtime, persistence, artifact,
  diagnostic, timeout, integrity, external, internal, ErrorSeverity, error, Recoverability,
  user_action_required, do_not_retry, bug, unknown,
}
use sight_stalker.Security.Redaction.{TextLibrary}
use sight_stalker.Security.Operator.{
  sanitize_operator_message, sanitize_operator_details, after_prefix,
}
use sight_stalker.Resilience.Operator.{OperatorError, make_operator_error}

abbrev pub db_not_ready_guidance : Text
db_not_ready_guidance =
    codes "database is not initialized or is unavailable; run 'sightstalker db init' first"

unfoldable pub default_type_for_kind : ErrorKind → Text
default_type_for_kind usage = codes "UsageError"
default_type_for_kind configuration = codes "UsageError"
default_type_for_kind security_refusal = codes "SecurityError"
default_type_for_kind browser_runtime = codes "BrowserError"
default_type_for_kind persistence = codes "PersistenceError"
default_type_for_kind artifact = codes "ArtifactError"
default_type_for_kind diagnostic = codes "DiagnosticError"
default_type_for_kind timeout = codes "InternalError"
default_type_for_kind integrity = codes "StateError"
default_type_for_kind external = codes "Error"
default_type_for_kind internal = codes "InternalError"

abbrev labels : List (Text × ErrorKind)
labels =
    (codes "UsageError", usage)
    ∷ (codes "PersistenceError", persistence)
    ∷ (codes "BrowserError", browser_runtime)
    ∷ (codes "DiagnosticError", diagnostic)
    ∷ (codes "SecurityError", security_refusal)
    ∷ (codes "StateError", integrity)
    ∷ (codes "ArtifactError", artifact)
    ∷ []

-- `mapping.get(label, "internal")`
lookup_label : List (Text × ErrorKind) → Text → ErrorKind
unfolding text_eq
lookup_label [] label = internal
lookup_label ((name, kind) ∷ rest) label = if name == label then kind else lookup_label rest label

unfoldable pub kind_for_cli_label : Text → ErrorKind
unfolding lookup_label
kind_for_cli_label label = lookup_label labels label

unfoldable pub recoverability_for_kind : ErrorKind → Recoverability
recoverability_for_kind usage = user_action_required
recoverability_for_kind configuration = user_action_required
recoverability_for_kind browser_runtime = user_action_required
recoverability_for_kind persistence = user_action_required
recoverability_for_kind security_refusal = do_not_retry
recoverability_for_kind _ = unknown

-- `part in text`
unfoldable pub has_text : Text → Text → Bool
unfolding after_prefix
has_text part [] = is_some (after_prefix part [])
has_text part (c ∷ text) =
    let later = has_text part text in is_some (after_prefix part (c ∷ text)) || later

module _ (lib : TextLibrary) where
  unfoldable pub looks_like_missing_schema : Exc → Bool
  unfolding has_text
  looks_like_missing_schema (plain operational_error name text) =
      has_text (codes "no such table") (lib.lower text)
      || has_text (codes "does not exist") (lib.lower text)
      || has_text (codes "unable to open database") (lib.lower text)
  looks_like_missing_schema _ = false

  -- The keyword arguments that all sites pass; severity, code and details are left at their defaults.
  described : Text → Text → ErrorKind → Recoverability → ℕ → OperatorError
  unfolding sanitize_operator_message
  described type message kind recoverability exit_code = record {
    type = type;
    message = sanitize_operator_message lib message;
    kind = kind;
    severity = error;
    recoverability = recoverability;
    exit_code = exit_code;
    code = none;
    details = none;
  }

  not_initialized : OperatorError
  not_initialized = record {
    type = codes "PersistenceError";
    message = db_not_ready_guidance;
    kind = persistence;
    severity = error;
    recoverability = user_action_required;
    exit_code = 3;
    code = some (codes "PERSISTENCE_NOT_INITIALIZED");
    details = none;
  }

  -- The two branches on `_looks_like_missing_schema`.
  persistence_failed : Exc → Text → OperatorError
  unfolding described not_initialized looks_like_missing_schema
  persistence_failed e text =
      if looks_like_missing_schema e
      then not_initialized
      else described (codes "PersistenceError") text persistence user_action_required 3

  unfoldable pub classify_service_exception : Exc → Option OperatorError
  unfolding described persistence_failed
  classify_service_exception (plain persistence_security_error name text) =
      some (described (codes "SecurityError") text security_refusal do_not_retry 6)
  classify_service_exception (plain persistence_error name text) =
      some (persistence_failed (plain persistence_error name text) text)
  classify_service_exception (plain diagnostic_error name text) =
      some (described (codes "DiagnosticError") text diagnostic unknown 5)
  classify_service_exception (plain diagnostic_persistence_error name text) =
      some (described (codes "DiagnosticError") text diagnostic unknown 5)
  classify_service_exception (plain session_lifecycle_error name text) =
      some (described (codes "BrowserError") text browser_runtime unknown 4)
  classify_service_exception (plain session_state_error name text) =
      some (described (codes "StateError") text integrity unknown 1)
  classify_service_exception (plain artifact_error name text) =
      some (described (codes "ArtifactError") text artifact unknown 1)
  classify_service_exception (plain operational_error name text) =
      some (persistence_failed (plain operational_error name text) text)
  classify_service_exception (plain sqlalchemy_error name text) =
      some (persistence_failed (plain sqlalchemy_error name text) text)
  classify_service_exception _ = none

  classify_cli_error : CliError → OperatorError
  unfolding described kind_for_cli_label recoverability_for_kind
  classify_cli_error e =
      described e.error_type e.message (kind_for_cli_label e.error_type)
        (recoverability_for_kind (kind_for_cli_label e.error_type)) e.exit_code

  classify_native : ProjectError → OperatorError
  classify_native e = record {
    type = e.public_type;
    message = e.message;
    kind = e.kind;
    severity = e.severity;
    recoverability = e.recoverability;
    exit_code = e.exit_code;
    code = e.code;
    details = e.details;
  }

  or_internal : Text → Option OperatorError → OperatorError
  unfolding described
  or_internal text none = described (codes "InternalError") text internal bug 1
  or_internal text (some e) = e

  unfoldable pub classify_exception : Exc → Outcome Exc OperatorError
  unfolding classify_native classify_cli_error classify_service_exception or_internal
      make_operator_error
  classify_exception (plain keyboard_interrupt name text) =
      raised (plain keyboard_interrupt name text)
  classify_exception (plain system_exit name text) = raised (plain system_exit name text)
  classify_exception (project e) = make_operator_error (classify_native e)
  classify_exception (cli e) = make_operator_error (classify_cli_error e)
  classify_exception (plain cls name text) =
      make_operator_error (or_internal text (classify_service_exception (plain cls name text)))

  unfoldable pub operator_error_from_message :
      Text
      → ErrorKind
      → ℕ
      → ErrorSeverity
      → Recoverability
      → Option Text
      → Option Text
      → Option Fields
      → Outcome Exc OperatorError
  unfolding default_type_for_kind sanitize_operator_message sanitize_operator_details
      make_operator_error
  operator_error_from_message message kind exit_code severity recoverability type code details =
      make_operator_error (record {
        type = or_else type (default_type_for_kind kind);
        message = sanitize_operator_message lib message;
        kind = kind;
        severity = severity;
        recoverability = recoverability;
        exit_code = exit_code;
        code = code;
        details = sanitize_operator_details lib details;
      })
