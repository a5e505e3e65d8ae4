-- ===== src/Sessions/Manager/Enter/Locking.antt =====
-- `__aenter__` under the lock: the steps keep the attributes and the trace consistent.
use sight_stalker.Prelude.{◌≡◌, true, Option, none, some, ok, is_some, arith}
use sight_stalker.Exec.{Keeps, keeps_rules}
use sight_stalker.Models.Artifacts.{ArtifactRef}
use sight_stalker.Models.Browser.{BrowserState}
use sight_stalker.Sessions.Collaborators.{Collaborators}
use sight_stalker.Sessions.Manager.State.{run_layout, Opened, Managed, perform, now}
use sight_stalker.Sessions.Manager.Trace.{IsHeld}
use sight_stalker.Sessions.Manager.Enter.{
  restart_clock, resolve_prior, resolve_initial_state, write_snapshot, launch_engine, create_on,
  create_context, describe_run, locked_body,
}

module _ (c : Collaborators) (o : Opened) where
  open o use {session, profile, request, run_id, context_id}

  run_layout-IsHeld :
      Keeps IsHeld (perform {c = c} run_layout (c.ensure_run_layout profile.profile_id run_id))
  unfolding perform
  run_layout-IsHeld = record { at = λ s h. ground arith }

  restart_clock-IsHeld : Keeps IsHeld (restart_clock c o)
  unfolding restart_clock now
  restart_clock-IsHeld = record { at = λ s h. ground arith }

  launch_engine-IsHeld : Keeps IsHeld (launch_engine c o)
  unfolding launch_engine perform
  launch_engine-IsHeld = record { at = λ s h. ground arith }

  resolve_prior-IsHeld : (prior : Option ArtifactRef) → Keeps IsHeld (resolve_prior c o prior)
  unfolding resolve_prior perform
  resolve_prior-IsHeld none = record { at = λ s h. h }
  resolve_prior-IsHeld (some ref) = record { at = λ s h. ground arith }

  resolve_initial_state-IsHeld : Keeps IsHeld (resolve_initial_state c o)
  unfolding resolve_initial_state
  resolve_initial_state-IsHeld = resolve_prior-IsHeld _

  write_snapshot-IsHeld : (state : BrowserState) → Keeps IsHeld (write_snapshot c o state)
  unfolding write_snapshot perform
  write_snapshot-IsHeld state = record { at = λ s h. ground arith }

  create_on-IsHeld :
      (r : Option c.Runtime) (state : BrowserState) → Keeps IsHeld (create_on c o r state)
  unfolding create_on perform
  create_on-IsHeld none state = record { at = λ s h. h }
  create_on-IsHeld (some runtime) state = record { at = λ s h. ground arith }

  create_context-IsHeld : (state : BrowserState) → Keeps IsHeld (create_context c o state)
  unfolding create_context
  create_context-IsHeld state = record { at = λ s h. (create_on-IsHeld s.runtime state).at s h }

  describe_run-IsHeld : Keeps IsHeld (describe_run c o)
  unfolding describe_run now
  describe_run-IsHeld = record { at = λ s h. ground arith }

  ruleset step_rules = (
    keeps_rules, run_layout-IsHeld, restart_clock-IsHeld, resolve_initial_state-IsHeld,
    write_snapshot-IsHeld, launch_engine-IsHeld, create_context-IsHeld, describe_run-IsHeld,
  )

  pub locked_body-IsHeld : Keeps IsHeld (locked_body c o)
  unfolding locked_body perform
  locked_body-IsHeld = search step_rules depth 20

  -- Everything that a run needs is in place.
  pub record IsRunning (s : Managed c) : Type 0 where
    pub runtime : is_some s.runtime ≡ true
    pub context : is_some s.context ≡ true
    pub run_record : is_some s.run_record ≡ true
    pub context_record : is_some s.context_record ≡ true

  pub locked_body-IsRunning :
      (s : Managed c) → (locked_body c o s).0 ≡ ok tt → IsRunning (locked_body c o s).1
  unfolding locked_body perform restart_clock resolve_initial_state resolve_prior write_snapshot
      launch_engine create_context create_on describe_run now
  locked_body-IsRunning s ran = ground arith
