-- ===== src/Ops/Failures.antt =====
-- ops/runs.py: what `execute_managed_run` and `_persist_run` raise when a phase fails.
pub mod Told
use sight_stalker.Prelude.{Bool, true, false, [], ◌∷◌, ◌++◌, Text, codes, if◌then◌else◌}
use sight_stalker.Errors.{
  Exc, ExcClass, project, cli, plain, keyboard_interrupt, system_exit, cancelled_error, class_name,
  is_exception,
}
use sight_stalker.Security.Redaction.{TextLibrary}
use sight_stalker.Resilience.Native.{
  NativeClass, usage_error, security_refusal_error, browser_runtime_error, persistence_failure,
  native_error, attributes, no_overrides,
}
use sight_stalker.Ops.Modes.{raise_native}

-- `failure_phase`, where a plan that ran to its end has none.
pub data FailurePhase : Type 0 where
  initializer plan : FailurePhase

abbrev pub orphan_warning : Text
orphan_warning =
    codes
      "artifact files were written but metadata persistence failed; the files were left in place and not deleted"

module _ (lib : TextLibrary) where
  -- `isinstance(run_error, (KeyboardInterrupt, SystemExit, CancelledError))`
  abbrev pub is_process_control : Exc → Bool
  is_process_control (plain keyboard_interrupt name text) = true
  is_process_control (plain system_exit name text) = true
  is_process_control (plain cancelled_error name text) = true
  is_process_control _ = false

  abbrev pub is_project : Exc → Bool
  is_project (project e) = true
  is_project _ = false

  phase_failure : FailurePhase → Exc → Exc
  unfolding raise_native
  phase_failure initializer e =
      raise_native lib usage_error (codes "context initializer failed: " ++ class_name e)
  phase_failure plan e =
      raise_native lib browser_runtime_error
        (codes "run navigation/capture failed: " ++ class_name e)

  -- What is raised for the error of an initializer or of the plan, once the context has been left.
  unfoldable pub run_failure : FailurePhase → Exc → Exc
  unfolding phase_failure
  run_failure phase e =
      if is_process_control e then e else if is_project e then e else phase_failure phase e

  -- `except SightStalkerError: raise`, then `except Exception`; all else goes on.
  wrapped : NativeClass → Text → Exc → Exc
  unfolding raise_native is_exception
  wrapped cls text e =
      if is_project e
      then e
      else if is_exception e
      then raise_native lib cls (text ++ class_name e)
      else e

  -- What is raised when the configuration check fails,
  unfoldable pub config_failure : Exc → Exc
  unfolding wrapped
  config_failure =
      wrapped security_refusal_error (codes "session runtime config is not safe to run: ")

  -- when `__aenter__` fails,
  unfoldable pub enter_failure : Exc → Exc
  unfolding wrapped
  enter_failure = wrapped browser_runtime_error (codes "browser run could not start: ")

  -- and when the transaction fails: an `OpsPersistenceFailure` with the orphan warning.
  unfoldable pub persist_failure : Exc → Exc
  unfolding is_exception
  persist_failure e =
      if is_project e
      then e
      else if is_exception e
      then project
          (record (native_error lib (attributes persistence_failure)
            (codes "run metadata persistence failed: " ++ class_name e) no_overrides) {
              class_name = codes "OpsPersistenceFailure";
              warnings = orphan_warning ∷ [];
            })
      else e
