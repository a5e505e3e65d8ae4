-- ===== src/Sessions/Manager/Exit.antt =====
-- `ManagedSessionContext.__aexit__`.
pub mod Answers
pub mod Closing
pub mod Order
pub mod Verdict
mod Tests
use sight_stalker.Prelude.{
  ℕ, Bool, true, false, ◌&&◌, List, [], ◌∷◌, ◌++◌, Option, none, some, Text, codes, Outcome, ok,
  raised, is_some, if◌then◌else◌,
}
use mathlib.Core.List.{map}
use mathlib.Core.Option
use sight_stalker.Exec.{Exec, ◌>>=◌, ◌>>◌, lift}
use sight_stalker.Errors.{Exc, class_name}
use sight_stalker.Models.Artifacts.{ArtifactRef}
use sight_stalker.Models.Browser.{BrowserState}
use sight_stalker.Models.Identifiers.{RunStatus, succeeded, failed}
use sight_stalker.Models.Json.{Fields, array, set_field}
use sight_stalker.Models.Paths.{FilePath}
use sight_stalker.Models.Records.{SessionRecord, RunRecord, BrowserContextRecord}
use sight_stalker.Sessions.Collaborators.{Collaborators}
use sight_stalker.Sessions.Manager.State.{
  storage_state, write_final, close_context, close_runtime, release, Opened, Managed,
  SessionLifecycleResult, perform, now, collected_artifacts, build_metadata, cleanup_errors_key,
  texts,
}

-- `metadata[_CLEANUP_ERRORS_KEY] = list(cleanup_errors)`, if there are any.
unfoldable pub with_cleanup_errors : List Text → Fields → Fields
unfolding texts
with_cleanup_errors [] metadata = metadata
with_cleanup_errors (e ∷ errors) metadata =
    set_field cleanup_errors_key (array (texts (e ∷ errors))) metadata

-- `_build_updated_session`
unfoldable pub build_updated_session :
    SessionRecord → Bool → Option ArtifactRef → Option ArtifactRef → SessionRecord
build_updated_session session advance_final initial_ref final_ref = record session {
  latest_initial_state = if is_some initial_ref then initial_ref else session.latest_initial_state;
  latest_final_state =
      if advance_final && is_some final_ref then final_ref else session.latest_final_state;
}

-- `model_copy(update={"final_storage_state": ref})`, if there is a record.
with_final : ArtifactRef → Option BrowserContextRecord → Option BrowserContextRecord
with_final ref none = none
with_final ref (some r) = some (record r { final_storage_state = some ref })

module _ (c : Collaborators) (o : Opened) where
  open o use {session, profile, request, run_id, context_id}

  -- The `try` block of `_capture_and_record_final_state`.
  capture : c.Context → Exec Exc (Managed c) ArtifactRef
  capture context = do
    state ← perform storage_state (c.storage_state context)
    perform write_final (c.write_final_state profile.profile_id run_id session.session_id state)

  keep_final : Outcome Exc ArtifactRef × Managed c → Option Exc × Managed c
  keep_final (raised e, s) = (some e, s)
  keep_final (ok ref, s) =
      (none, record s { final_ref = some ref; context_record = with_final ref s.context_record })

  capture_on : Option c.Context → Managed c → Option Exc × Managed c
  unfolding capture keep_final
  capture_on none s = (none, s)
  capture_on (some context) s = keep_final (capture context s)

  -- `_capture_and_record_final_state`
  capture_and_record_final_state : Managed c → Option Exc × Managed c
  unfolding capture_on
  capture_and_record_final_state s =
      if session.config.persist_storage_state && session.config.capture_final_storage_state
      then capture_on s.context s
      else (none, s)

  -- The exception of a call that cleanup keeps going after.
  failure {ℓ} : {A : Type ℓ} → Outcome Exc A → Option Exc
  failure (ok a) = none
  failure (raised e) = some e

  -- The closed record gets its time once.
  mark_closed : Option BrowserContextRecord → Managed c → Managed c
  mark_closed none s = s
  mark_closed (some r) s =
      if is_some r.closed_at
      then s
      else (let (t, s') = now s in
          record s' { context_record = some (record r { closed_at = some t }) })

  close_context_on : Option c.Context → Managed c → Option Exc × Managed c
  unfolding failure mark_closed
  close_context_on none s = (none, s)
  close_context_on (some context) s =
      let (r, s') = perform close_context (c.close_context context) s in
      (failure r, mark_closed s'.context_record s')

  close_runtime_on : Option c.Runtime → Managed c → Option Exc × Managed c
  unfolding failure
  close_runtime_on none s = (none, s)
  close_runtime_on (some runtime) s =
      let (r, s') = perform close_runtime (c.close_runtime runtime) s in (failure r, s')

  -- `_release_lock`; the attribute is cleared whether or not the release raised.
  release_on : Option c.Lock → Managed c → Option Exc × Managed c
  unfolding failure
  release_on none s = (none, s)
  release_on (some lock) s =
      let (r, s') = perform release (c.release lock) s in (failure r, record s' { lock = none })

  abbrev note_error : Option Exc → List Exc → List Exc
  note_error none errors = errors
  note_error (some e) errors = e ∷ errors

  -- The four cleanup steps that both handlers make, each whatever the ones before it did, with their
  -- exceptions in order.
  pub run_cleanup : Managed c → List Exc × Managed c
  unfolding capture_and_record_final_state close_context_on close_runtime_on release_on
  run_cleanup s =
      let (capture_err, s₁) = capture_and_record_final_state s in
      let (ctx_err, s₂) = close_context_on s₁.context s₁ in
      let (rt_err, s₃) = close_runtime_on s₂.runtime s₂ in
      let (lock_err, s₄) = release_on s₃.lock s₃ in
      (note_error capture_err (note_error ctx_err (note_error rt_err (note_error lock_err []))), s₄)

  -- `_build_terminal_record`
  build_terminal_record : RunStatus → ℕ → Option Exc → List Exc → Managed c → RunRecord × Managed c
  build_terminal_record status completed_at error cleanup_errors s =
      let (created_at, s') = now s in
      (
        record {
          created_at = created_at;
          updated_at = none;
          run_id = run_id;
          session_id = session.session_id;
          status = status;
          started_at = some s.started_at;
          completed_at = some completed_at;
          start_url = request.start_url;
          error_type = Option.map class_name error;
          error_message_redacted = Option.map c.redact_exception error;
          artifacts = collected_artifacts s.initial_ref s.final_ref;
          metadata =
              with_cleanup_errors (map c.redact_exception cleanup_errors) (build_metadata request);
        },
        s',
      )

  result_in :
      Bool → RunRecord → Managed c → Outcome Exc FilePath → Outcome Exc SessionLifecycleResult
  result_in advance_final run_record s (raised e) = raised e
  result_in advance_final run_record s (ok dir) = ok (record {
    run_record = run_record;
    context_record = s.context_record;
    updated_session = build_updated_session session advance_final s.initial_ref s.final_ref;
    initial_state_ref = s.initial_ref;
    final_state_ref = s.final_ref;
    relative_run_dir = dir;
  })

  -- `_build_result` and `_relative_run_dir`, which may raise.
  build_result : Bool → RunRecord → Managed c → Outcome Exc SessionLifecycleResult
  unfolding result_in
  build_result advance_final run_record s =
      result_in advance_final run_record s
        (c.relative_to_data_dir (c.run_dir profile.profile_id run_id) s.world)

  store_result : Outcome Exc SessionLifecycleResult → Exec Exc (Managed c) (Unit {0})
  store_result (ok result) s = (ok tt, record s { result = some result })
  store_result (raised e) s = (raised e, s)

  -- The end of a handler: the terminal record, stored, and the result.
  conclude : RunStatus → Bool → Option Exc → List Exc → Exec Exc (Managed c) (Unit {0})
  unfolding build_terminal_record build_result store_result
  conclude status advance_final error cleanup_errors s =
      let (completed_at, s₁) = now s in
      let (run_record, s₂) = build_terminal_record status completed_at error cleanup_errors s₁ in
      let s₃ = record s₂ { run_record = some run_record } in
      store_result (build_result advance_final run_record s₃) s₃

  -- The end of `_handle_success`: the first cleanup failure is raised again once the result is built.
  finish_success : List Exc → Exec Exc (Managed c) (Unit {0})
  unfolding conclude
  finish_success [] = conclude succeeded true none []
  finish_success (e ∷ errors) = do conclude failed false (some e) (e ∷ errors); lift (raised e)

  -- `_handle_success`
  handle_success : Exec Exc (Managed c) (Unit {0})
  unfolding run_cleanup finish_success
  handle_success s = let (errors, s') = run_cleanup s in finish_success errors s'

  -- `_handle_caller_exception`
  handle_caller_exception : Exc → Exec Exc (Managed c) (Unit {0})
  unfolding run_cleanup conclude
  handle_caller_exception exc s =
      let (errors, s') = run_cleanup s in conclude failed false (some exc) errors s'

  handle : Option Exc → Exec Exc (Managed c) (Unit {0})
  unfolding handle_success handle_caller_exception
  handle none = handle_success
  handle (some exc) = handle_caller_exception exc

  -- `__aexit__`: what a handler raises goes on, and `_exited` is set either way. It returns `False`, so
  -- the caller's own exception is never suppressed.
  pub aexit : Option Exc → Exec Exc (Managed c) (Unit {0})
  unfolding handle
  aexit exc s = let (r, s') = handle exc s in (r, record s' { exited = true })
