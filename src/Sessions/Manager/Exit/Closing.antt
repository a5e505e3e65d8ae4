-- ===== src/Sessions/Manager/Exit/Closing.antt =====
-- `__aexit__` gives everything back, in order, whatever fails.
use sight_stalker.Prelude.{
  ◌≡◌, Bool, true, false, List, [], ◌∷◌, Option, none, some, is_some, arith,
}
use sight_stalker.Errors.{Exc}
use sight_stalker.Models.Identifiers.{RunStatus, succeeded, failed}
use sight_stalker.Sessions.Collaborators.{Collaborators}
use sight_stalker.Sessions.Manager.State.{Opened, Managed, perform, now}
use sight_stalker.Sessions.Manager.Trace.{
  IsHeld, IsReleased, UnderLock, lock_open, runtime_open, context_open,
}
use sight_stalker.Sessions.Manager.Exit.{
  capture_and_record_final_state, close_context_on, close_runtime_on, release_on, run_cleanup,
  conclude, finish_success, handle, aexit,
}

module _ (c : Collaborators) (o : Opened) where
  capture-IsHeld : (s : Managed c) → IsHeld s → IsHeld (capture_and_record_final_state c o s).1
  unfolding capture_and_record_final_state perform
  capture-IsHeld s h = ground arith

  -- The context is closed, the rest is as it was.
  record IsContextClosed (s : Managed c) : Type 0 where
    lock : is_some s.lock ≡ lock_open s.trace
    held : is_some s.lock ≡ true
    runtime : is_some s.runtime ≡ runtime_open s.trace
    context : context_open s.trace ≡ false
    guarded : UnderLock s.trace

  -- Context and runtime are closed.
  record IsRuntimeClosed (s : Managed c) : Type 0 where
    lock : is_some s.lock ≡ lock_open s.trace
    held : is_some s.lock ≡ true
    runtime : runtime_open s.trace ≡ false
    context : context_open s.trace ≡ false
    guarded : UnderLock s.trace

  close_context-IsContextClosed :
      (s : Managed c) → IsHeld s → IsContextClosed (close_context_on c o s.context s).1
  unfolding close_context_on perform now
  close_context-IsContextClosed s h = ground arith

  close_runtime-IsRuntimeClosed :
      (s : Managed c) → IsContextClosed s → IsRuntimeClosed (close_runtime_on c o s.runtime s).1
  unfolding close_runtime_on perform
  close_runtime-IsRuntimeClosed s h = ground arith

  release-IsReleased : (s : Managed c) → IsRuntimeClosed s → IsReleased (release_on c o s.lock s).1
  unfolding release_on perform
  release-IsReleased s h = ground arith

  run_cleanup-IsReleased : (s : Managed c) → IsHeld s → IsReleased (run_cleanup c o s).1
  unfolding run_cleanup
  run_cleanup-IsReleased s h =
      release-IsReleased _
        (close_runtime-IsRuntimeClosed _ (close_context-IsContextClosed _ (capture-IsHeld s h)))

  conclude-IsReleased :
      (status : RunStatus) (advance : Bool) (error : Option Exc) (errors : List Exc) (s : Managed c)
      → IsReleased s
      → IsReleased (conclude c o status advance error errors s).1
  unfolding conclude now
  conclude-IsReleased status advance error errors s h = ground arith

  finish_success-IsReleased :
      (errors : List Exc) (s : Managed c)
      → IsReleased s
      → IsReleased (finish_success c o errors s).1
  unfolding finish_success
  finish_success-IsReleased [] s h = conclude-IsReleased succeeded true none [] s h
  finish_success-IsReleased (e ∷ errors) s h =
      ground (arith, conclude-IsReleased failed false (some e) (e ∷ errors) s h)

  handle-IsReleased :
      (exc : Option Exc) (s : Managed c) → IsHeld s → IsReleased (handle c o exc s).1
  unfolding handle
  handle-IsReleased none s h =
      finish_success-IsReleased (run_cleanup c o s).0 (run_cleanup c o s).1
        (run_cleanup-IsReleased s h)
  handle-IsReleased (some exc) s h =
      conclude-IsReleased failed false (some exc) (run_cleanup c o s).0 (run_cleanup c o s).1
        (run_cleanup-IsReleased s h)

  -- `__aexit__`, after a successful `__aenter__` and with or without a caller's exception, leaves no
  -- lock, runtime or context open, whichever of its own steps raise; it made all its calls while it
  -- still held the lock, and it is marked as exited.
  pub aexit-IsReleased :
      (exc : Option Exc) (s : Managed c)
      → IsHeld s
      → IsReleased (aexit c o exc s).1 × ((aexit c o exc s).1.exited ≡ true)
  unfolding aexit
  aexit-IsReleased exc s h = ground (arith, handle-IsReleased exc s h)
