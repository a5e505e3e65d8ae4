-- ===== src/Errors.antt =====
-- resilience/errors.py and resilience/models.py: the error taxonomy, with the exception classes of the
-- other layers that the code tells apart.
use sight_stalker.Prelude.{ℕ, Bool, true, false, List, Option, Text}
use sight_stalker.Models.Json.{Fields}

pub data ErrorKind : Type 0 where
  usage configuration security_refusal browser_runtime persistence : ErrorKind
  artifact diagnostic timeout integrity external internal : ErrorKind

pub data ErrorSeverity : Type 0 where
  info warning error critical : ErrorSeverity

pub data Recoverability : Type 0 where
  user_action_required safe_to_retry do_not_retry bug unknown : Recoverability

-- `SightStalkerError` and its subclasses, with their class-level defaults applied. `class_name` is
-- `type(exc).__name__`; `warnings` is the attribute that `OpsPersistenceFailure` adds.
pub record ProjectError : Type 0 where
  pub class_name : Text
  pub message : Text
  pub kind : ErrorKind
  pub severity : ErrorSeverity
  pub recoverability : Recoverability
  pub exit_code : ℕ
  pub public_type : Text
  pub code : Option Text
  pub details : Option Fields
  pub warnings : List Text

-- `CliError` and its subclasses.
pub record CliError : Type 0 where
  pub class_name : Text
  pub message : Text
  pub error_type : Text
  pub exit_code : ℕ
  pub warnings : List Text

-- The classes of all other exceptions, each standing for itself and for its subclasses that are not
-- listed.
pub data ExcClass : Type 0 where
  keyboard_interrupt system_exit cancelled_error other_base_exception : ExcClass
  persistence_security_error persistence_error : ExcClass
  diagnostic_error diagnostic_persistence_error : ExcClass
  session_lifecycle_error session_state_error artifact_error : ExcClass
  operational_error sqlalchemy_error : ExcClass
  value_error profile_lock_unavailable other_exception : ExcClass

pub data Exc : Type 0 where
  project : ProjectError → Exc
  cli : CliError → Exc
  plain : ExcClass → Text → Text → Exc

-- `type(exc).__name__`
abbrev pub class_name : Exc → Text
class_name (project e) = e.class_name
class_name (cli e) = e.class_name
class_name (plain c name message) = name

-- `str(exc)`
abbrev pub message : Exc → Text
message (project e) = e.message
message (cli e) = e.message
message (plain c name text) = text

-- `isinstance(exc, Exception)`: the classes that `except Exception` leaves alone derive from
-- `BaseException` directly.
unfoldable pub is_exception : Exc → Bool
is_exception (plain keyboard_interrupt name text) = false
is_exception (plain system_exit name text) = false
is_exception (plain cancelled_error name text) = false
is_exception (plain other_base_exception name text) = false
is_exception _ = true
