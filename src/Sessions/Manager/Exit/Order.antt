-- ===== src/Sessions/Manager/Exit/Order.antt =====
-- `__aexit__` closes in a fixed order.
use sight_stalker.Prelude.{
  ◌≡◌, sym, ap, ◌∙◌, if◌then◌else◌, Bool, true, false, List, [], ◌∷◌, Option, none, some, is_some,
  arith,
}
use mathlib.Core.Path.{subst}
use sight_stalker.Errors.{Exc}
use sight_stalker.Models.Identifiers.{RunStatus, succeeded, failed}
use sight_stalker.Sessions.Collaborators.{Collaborators}
use sight_stalker.Sessions.Manager.State.{
  close_context, close_runtime, release, Opened, Managed, perform, now, is_ok,
}
use sight_stalker.Sessions.Manager.Exit.{
  capture_on, capture_and_record_final_state, close_context_on, close_runtime_on, release_on,
  run_cleanup, conclude, finish_success, handle, aexit,
}
use sight_stalker.Sessions.Manager.Exit.Answers.{capture_calls, is_capturing, IsOpen}
use sight_stalker.Sessions.Manager.Trace.{calls}

module _ (c : Collaborators) (o : Opened) where
  close_context-calls :
      (s : Managed c)
      → is_some s.context ≡ true
      → calls (close_context_on c o s.context s).1.trace ≡ close_context ∷ calls s.trace
  unfolding close_context_on perform now
  close_context-calls s h = ground arith

  capture-keeps :
      (s : Managed c)
      → ((capture_and_record_final_state c o s).1.lock ≡ s.lock)
        × ((capture_and_record_final_state c o s).1.runtime ≡ s.runtime)
        × ((capture_and_record_final_state c o s).1.context ≡ s.context)
  unfolding capture_and_record_final_state perform
  capture-keeps s = ground arith

  close_context-keeps :
      (s : Managed c)
      → ((close_context_on c o s.context s).1.lock ≡ s.lock)
        × ((close_context_on c o s.context s).1.runtime ≡ s.runtime)
  unfolding close_context_on perform now
  close_context-keeps s = ground arith

  close_runtime-calls :
      (s : Managed c)
      → is_some s.runtime ≡ true
      → (calls (close_runtime_on c o s.runtime s).1.trace ≡ close_runtime ∷ calls s.trace)
        × ((close_runtime_on c o s.runtime s).1.lock ≡ s.lock)
  unfolding close_runtime_on perform
  close_runtime-calls s h = ground arith

  release-calls :
      (s : Managed c)
      → is_some s.lock ≡ true
      → calls (release_on c o s.lock s).1.trace ≡ release ∷ calls s.trace
  unfolding release_on perform
  release-calls s h = ground arith

  run_cleanup-calls :
      (s : Managed c)
      → is_some s.lock ≡ true
      → is_some s.runtime ≡ true
      → is_some s.context ≡ true
      → calls (run_cleanup c o s).1.trace
        ≡ release
          ∷ close_runtime
          ∷ close_context
          ∷ calls (capture_and_record_final_state c o s).1.trace
  unfolding run_cleanup
  run_cleanup-calls s l r x =
      let s₁ = (capture_and_record_final_state c o s).1 in
      let s₂ = (close_context_on c o s₁.context s₁).1 in
      let s₃ = (close_runtime_on c o s₂.runtime s₂).1 in
      ground (
        arith,
        capture-keeps s,
        close_context-keeps s₁,
        close_context-calls s₁,
        close_runtime-calls s₂,
        release-calls s₃,
      )

  conclude-calls :
      (status : RunStatus) (advance : Bool) (error : Option Exc) (errors : List Exc) (s : Managed c)
      → calls (conclude c o status advance error errors s).1.trace ≡ calls s.trace
  unfolding conclude now
  conclude-calls status advance error errors s = ground arith

  finish_success-calls :
      (errors : List Exc) (s : Managed c)
      → calls (finish_success c o errors s).1.trace ≡ calls s.trace
  unfolding finish_success
  finish_success-calls [] s = conclude-calls succeeded true none [] s
  finish_success-calls (e ∷ errors) s =
      ground (arith, conclude-calls failed false (some e) (e ∷ errors) s)

  handle-calls :
      (exc : Option Exc) (s : Managed c)
      → calls (handle c o exc s).1.trace ≡ calls (run_cleanup c o s).1.trace
  unfolding handle
  handle-calls none s = finish_success-calls (run_cleanup c o s).0 (run_cleanup c o s).1
  handle-calls (some exc) s =
      conclude-calls failed false (some exc) (run_cleanup c o s).0 (run_cleanup c o s).1

  capture_on-calls :
      (ctx : c.Context) (s : Managed c)
      → calls (if is_capturing c o then capture_on c o (some ctx) s else (none, s)).1.trace
        ≡ capture_calls (is_capturing c o) (is_ok (c.storage_state ctx s.world).0) (calls s.trace)
  unfolding capture_on perform
  capture_on-calls ctx s = ground arith

  capture-calls :
      (ctx : c.Context) (s : Managed c)
      → s.context ≡ some ctx
      → calls (capture_and_record_final_state c o s).1.trace
        ≡ capture_calls (is_capturing c o) (is_ok (c.storage_state ctx s.world).0) (calls s.trace)
  unfolding capture_and_record_final_state
  capture-calls ctx s h =
      subst
        (λ (x : Option c.Context).
          calls (if is_capturing c o then capture_on c o x s else (none, s)).1.trace
          ≡ capture_calls (is_capturing c o) (is_ok (c.storage_state ctx s.world).0)
              (calls s.trace))
        (sym h) (capture_on-calls ctx s)

  -- From a state with lock, runtime and context in place, `__aexit__` makes these calls and no others,
  -- in this order. If the session persists storage states and captures the final one, it reads the
  -- storage state, and writes the final snapshot if that could be read; otherwise it does neither. Then
  -- it closes the context, closes the runtime and releases the lock, each exactly once, whichever of
  -- the earlier calls raised.
  pub aexit-calls :
      (exc : Option Exc) (ctx : c.Context) (rt : c.Runtime) (lk : c.Lock) (s : Managed c)
      → IsOpen c o ctx rt lk s
      → calls (aexit c o exc s).1.trace
        ≡ release
          ∷ close_runtime
          ∷ close_context
          ∷ capture_calls (is_capturing c o) (is_ok (c.storage_state ctx s.world).0) (calls s.trace)
  unfolding aexit
  aexit-calls exc ctx rt lk s h =
      handle-calls exc s
      ∙ run_cleanup-calls s (ap is_some h.lock) (ap is_some h.runtime) (ap is_some h.context)
      ∙ ap (λ t. release ∷ close_runtime ∷ close_context ∷ t) (capture-calls ctx s h.context)
