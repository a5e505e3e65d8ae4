-- ===== src/Sessions/Manager/Exit/Verdict.antt =====
-- What `__aexit__` reports.
use sight_stalker.Prelude.{
  ◌≡◌, ◌∙◌, ◌⊎◌, Bool, true, false, List, [], ◌∷◌, Option, none, some, ok, raised, Outcome, is_some,
  arith, if◌then◌else◌,
}
use mathlib.Core.Path.{subst}
use mathlib.Core.Option
use sight_stalker.Errors.{Exc, class_name}
use sight_stalker.Models.Identifiers.{RunStatus, succeeded, failed}
use sight_stalker.Models.Artifacts.{ArtifactRef}
use sight_stalker.Models.Paths.{FilePath}
use sight_stalker.Sessions.Collaborators.{Collaborators}
use sight_stalker.Sessions.Manager.State.{Opened, Managed, SessionLifecycleResult, perform, now}
use sight_stalker.Sessions.Manager.Exit.{
  build_updated_session, run_cleanup, conclude, finish_success, handle, aexit,
}
use sight_stalker.Sessions.Manager.Exit.Answers.{
  ref_of, is_capturing, captured, cleanup_failures, IsOpen, run_cleanup-answers,
}

module _ (c : Collaborators) (o : Opened) where
  run_cleanup-result : (s : Managed c) → (run_cleanup c o s).1.result ≡ s.result
  unfolding run_cleanup perform now
  run_cleanup-result s = ground arith

  -- The result hands on the final state that was captured, if any. A succeeded run advances the
  -- session to it; a failed run leaves the final state that the session had.
  abbrev pub Advances : Option ArtifactRef → Option SessionLifecycleResult → Type 0
  Advances final none = Unit
  Advances final (some r) =
      (r.final_state_ref ≡ final)
      × (((r.run_record.status ≡ succeeded)
            × (r.run_record.error_type ≡ none)
            × (r.updated_session.latest_final_state
                ≡ (if is_some final then final else o.session.latest_final_state)))
          ⊎ ((r.run_record.status ≡ failed)
              × (is_some r.run_record.error_type ≡ true)
              × (r.updated_session.latest_final_state ≡ o.session.latest_final_state)))

  finish_success-Advances :
      (errors : List Exc) (s : Managed c)
      → s.result ≡ none
      → Advances s.final_ref (finish_success c o errors s).1.result
  unfolding finish_success now build_updated_session
  finish_success-Advances [] s h = ground arith
  finish_success-Advances (e ∷ errors) s h = ground arith

  conclude-Advances :
      (exc : Exc) (errors : List Exc) (s : Managed c)
      → s.result ≡ none
      → Advances s.final_ref (conclude c o failed false (some exc) errors s).1.result
  unfolding conclude now build_updated_session
  conclude-Advances exc errors s h = ground arith

  handle-Advances :
      (exc : Option Exc) (s : Managed c)
      → s.result ≡ none
      → Advances (run_cleanup c o s).1.final_ref (handle c o exc s).1.result
  unfolding handle
  handle-Advances none s h =
      finish_success-Advances (run_cleanup c o s).0 (run_cleanup c o s).1 (run_cleanup-result s ∙ h)
  handle-Advances (some exc) s h =
      conclude-Advances exc (run_cleanup c o s).0 (run_cleanup c o s).1 (run_cleanup-result s ∙ h)

  -- Whatever result `__aexit__` stores hands on the reference that the engine's storage state and the
  -- state store gave in this exit, if the session captures its final state and both calls returned,
  -- and none otherwise. If the run succeeded, it has no error type, and the updated session has that
  -- reference as its final state, or its earlier one if there is none. If the run failed, it has an
  -- error type, and the session's final state is unchanged.
  pub aexit-Advances :
      (exc : Option Exc) (ctx : c.Context) (rt : c.Runtime) (lk : c.Lock) (s : Managed c)
      → IsOpen c o ctx rt lk s
      → Advances (ref_of (captured c o (is_capturing c o) ctx s.world).0) (aexit c o exc s).1.result
  unfolding aexit
  aexit-Advances exc ctx rt lk s h =
      subst (λ final. Advances final (handle c o exc s).1.result)
        (run_cleanup-answers c o ctx rt lk s h).1 (handle-Advances exc s h.result)

  -- A stored result with this status, and with the type and the redacted message of this error.
  abbrev pub Reports : RunStatus → Option Exc → Option SessionLifecycleResult → Type 0
  Reports status error none = ⊥
  Reports status error (some r) =
      (r.run_record.status ≡ status)
      × (r.run_record.error_type ≡ Option.map class_name error)
      × (r.run_record.error_message_redacted ≡ Option.map c.redact_exception error)

  -- The path authority accepts the run's directory, whatever the world.
  abbrev pub AcceptsRunDir : FilePath → Type 0
  AcceptsRunDir dir =
      (w : c.World) → c.relative_to_data_dir (c.run_dir o.profile.profile_id o.run_id) w ≡ ok dir

  conclude-Reports :
      (status : RunStatus) (advance : Bool) (error : Option Exc) (errors : List Exc) (s : Managed c)
      (dir : FilePath)
      → AcceptsRunDir dir
      → ((conclude c o status advance error errors s).0 ≡ ok tt)
        × Reports status error (conclude c o status advance error errors s).1.result
  unfolding conclude now
  conclude-Reports status advance error errors s dir h =
      ground (arith, h (c.utc_now (c.utc_now s.world).1).1)

  -- With a caller's exception, `__aexit__` does not raise and stores the result of a failed run whose
  -- error type and message are those of that exception, whatever the cleanup steps raised, provided
  -- that the path authority accepts the run's directory.
  pub aexit_caller_exception :
      (exc : Exc) (s : Managed c) (dir : FilePath)
      → AcceptsRunDir dir
      → ((aexit c o (some exc) s).0 ≡ ok tt)
        × Reports failed (some exc) (aexit c o (some exc) s).1.result
  unfolding aexit handle
  aexit_caller_exception exc s dir h =
      conclude-Reports failed false (some exc) (run_cleanup c o s).0 (run_cleanup c o s).1 dir h

  -- The first of the exceptions that cleanup met, if there is one.
  abbrev pub first_failure : List Exc → Outcome Exc (Unit {0})
  first_failure [] = ok tt
  first_failure (e ∷ errors) = raised e

  abbrev pub verdict : List Exc → RunStatus
  verdict [] = succeeded
  verdict (e ∷ errors) = failed

  abbrev pub culprit : List Exc → Option Exc
  culprit [] = none
  culprit (e ∷ errors) = some e

  finish_success-Reports :
      (errors : List Exc) (s : Managed c) (dir : FilePath)
      → AcceptsRunDir dir
      → ((finish_success c o errors s).0 ≡ first_failure errors)
        × Reports (verdict errors) (culprit errors) (finish_success c o errors s).1.result
  unfolding finish_success
  finish_success-Reports [] s dir h = conclude-Reports succeeded true none [] s dir h
  finish_success-Reports (e ∷ errors) s dir h =
      ground (arith, conclude-Reports failed false (some e) (e ∷ errors) s dir h)

  -- Without a caller's exception, `__aexit__` raises the first of the exceptions that the capture, the
  -- closing of the context, the closing of the runtime and the release of the lock raised, in this
  -- order, each called in the world that the one before left; and it stores the result of a failed run
  -- that reports that exception. If none of them raised, it returns and stores the result of a succeeded
  -- run with no error. The path authority is taken to accept the run's directory.
  pub aexit-first_failure :
      (ctx : c.Context) (rt : c.Runtime) (lk : c.Lock) (s : Managed c) (dir : FilePath)
      → IsOpen c o ctx rt lk s
      → AcceptsRunDir dir
      → ((aexit c o none s).0 ≡ first_failure (cleanup_failures c o ctx rt lk s))
        × Reports
            (verdict (cleanup_failures c o ctx rt lk s))
            (culprit (cleanup_failures c o ctx rt lk s))
            (aexit c o none s).1.result
  unfolding aexit handle
  aexit-first_failure ctx rt lk s dir open_at h =
      subst
        (λ errors.
          ((handle c o none s).0 ≡ first_failure errors)
          × Reports (verdict errors) (culprit errors) (handle c o none s).1.result)
        (run_cleanup-answers c o ctx rt lk s open_at).0
        (finish_success-Reports (run_cleanup c o s).0 (run_cleanup c o s).1 dir h)
