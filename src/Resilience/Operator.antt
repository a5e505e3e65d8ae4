-- ===== src/Resilience/Operator.antt =====
-- resilience/models.py and resilience/operator.py: `OperatorError`, its checks and its renderings.
use sight_stalker.Prelude.{
  ℕ, [], ◌++◌, Option, none, some, Text, codes, Outcome, ok, raised, ltb, or_else, if◌then◌else◌,
}
use sight_stalker.Models.Json.{Json, Fields, null, natural, string, object, end, field}
use sight_stalker.Errors.{
  Exc, plain, value_error, ErrorKind, usage, configuration, security_refusal, browser_runtime,
  persistence, artifact, diagnostic, timeout, integrity, external, internal, ErrorSeverity, info,
  warning, error, critical, Recoverability, user_action_required, safe_to_retry, do_not_retry, bug,
  unknown,
}
use sight_stalker.Security.Redaction.{TextLibrary}
use sight_stalker.Security.Operator.{sanitize_operator_message, sanitize_operator_details}

pub record OperatorError : Type 0 where
  pub type : Text
  pub message : Text
  pub kind : ErrorKind
  pub severity : ErrorSeverity
  pub recoverability : Recoverability
  pub exit_code : ℕ
  pub code : Option Text
  pub details : Option Fields

-- pydantic's message for an exit code above 6.
abbrev pub invalid_exit_code : Exc
invalid_exit_code = plain value_error (codes "ValidationError") (codes "less_than_equal")

-- The constructor, which checks `exit_code`.
unfoldable pub make_operator_error : OperatorError → Outcome Exc OperatorError
make_operator_error e = if ltb 6 e.exit_code then raised invalid_exit_code else ok e

unfoldable pub kind_text : ErrorKind → Text
kind_text usage = codes "usage"
kind_text configuration = codes "configuration"
kind_text security_refusal = codes "security_refusal"
kind_text browser_runtime = codes "browser_runtime"
kind_text persistence = codes "persistence"
kind_text artifact = codes "artifact"
kind_text diagnostic = codes "diagnostic"
kind_text timeout = codes "timeout"
kind_text integrity = codes "integrity"
kind_text external = codes "external"
kind_text internal = codes "internal"

unfoldable pub severity_text : ErrorSeverity → Text
severity_text info = codes "info"
severity_text warning = codes "warning"
severity_text error = codes "error"
severity_text critical = codes "critical"

unfoldable pub recoverability_text : Recoverability → Text
recoverability_text user_action_required = codes "user_action_required"
recoverability_text safe_to_retry = codes "safe_to_retry"
recoverability_text do_not_retry = codes "do_not_retry"
recoverability_text bug = codes "bug"
recoverability_text unknown = codes "unknown"

abbrev code_json : Option Text → Json
code_json none = null
code_json (some code) = string code

module _ (lib : TextLibrary) where
  unfoldable pub operator_error_to_json : OperatorError → Fields
  unfolding sanitize_operator_message sanitize_operator_details kind_text severity_text
      recoverability_text
  operator_error_to_json e = field (codes "type") (string e.type) (
      field (codes "message") (string (sanitize_operator_message lib e.message)) (
        field (codes "kind") (string (kind_text e.kind)) (
          field (codes "severity") (string (severity_text e.severity)) (
            field (codes "recoverability") (string (recoverability_text e.recoverability)) (
              field (codes "exit_code") (natural e.exit_code) (
                field (codes "code") (code_json e.code) (
                  field (codes "details")
                    (object (or_else (sanitize_operator_details lib e.details) end)) end)))))))

human_suffix : Recoverability → Text
human_suffix user_action_required = codes " (action required)"
human_suffix safe_to_retry = codes " (safe to retry)"
human_suffix _ = []

unfoldable pub operator_error_to_human : OperatorError → Text
unfolding human_suffix
operator_error_to_human e = e.message ++ human_suffix e.recoverability
