-- ===== src/Sessions/Manager/Enter/Tests.antt =====
-- `__aenter__` on the fixture.
use sight_stalker.Prelude.{
  ◌≡◌, refl, ◌≢◌, ◌⊎◌, is_some, true, false, ok, raised, inl, inr, is_raised, text_eq, codes,
}
use sight_stalker.Models.Identifiers.{matches_id, profile_prefix, session_prefix}
use sight_stalker.Models.Paths.{path_eq}
use sight_stalker.Sessions.Manager.State.{is_ok, Opened, open_context, perform, now}
use sight_stalker.Sessions.Manager.Trace.{IsReleased}
use sight_stalker.Sessions.Manager.Fixture.{toy, some_run, some_profile, launch_error}
use sight_stalker.Sessions.Manager.Enter.{
  guards, acquire_lock, restart_clock, resolve_prior, resolve_initial_state, write_snapshot,
  launch_engine, create_on, create_context, describe_run, locked_body, body, finish_enter, aenter,
}
use sight_stalker.Sessions.Manager.Enter.Release.{
  IsReady, aenter_failure-IsReleased, aenter_success-IsReady, aenter_rejects,
}

enters : (aenter (toy true true) some_run (open_context (toy true true) 0)).0 ≡ ok tt
unfolding aenter finish_enter body locked_body acquire_lock restart_clock resolve_initial_state
    resolve_prior write_snapshot launch_engine create_context create_on describe_run guards
    matches_id path_eq text_eq perform now open_context
enters = refl

launch_fails :
    (aenter (toy false true) some_run (open_context (toy false true) 0)).0 ≡ raised launch_error
unfolding aenter finish_enter body locked_body acquire_lock restart_clock resolve_initial_state
    resolve_prior write_snapshot launch_engine create_context create_on describe_run guards
    matches_id path_eq text_eq perform now open_context
launch_fails = refl

aenter_failure_example :
    IsReleased (aenter (toy false true) some_run (open_context (toy false true) 0)).1
aenter_failure_example =
    aenter_failure-IsReleased (toy false true) some_run 0 launch_error launch_fails

aenter_success_example :
    IsReady
      (toy true true)
      some_run
      (aenter (toy true true) some_run (open_context (toy true true) 0)).1
aenter_success_example = aenter_success-IsReady (toy true true) some_run 0 enters

-- A run whose profile id is too short for its pattern.
abbrev astray : Opened
astray = record some_run { profile = record some_profile { profile_id = codes "prof_x" } }

too_short :
    (astray.profile.profile_id ≢ astray.session.profile_id)
    ⊎ (astray.request.session_id ≢ astray.session.session_id)
    ⊎ (matches_id profile_prefix astray.profile.profile_id ≡ false)
    ⊎ (matches_id session_prefix astray.session.session_id ≡ false)
    ⊎ (is_some astray.session.config.launch.user_data_dir ≡ true)
    ⊎ (is_some astray.session.config.launch.fingerprint ≡ true)
    ⊎ ((toy true true).resolve astray.profile.profile_dir 1
        ≢ (toy true true).resolve ((toy true true).profile_dir astray.profile.profile_id) 1)
    ⊎ (is_ok ((toy true true).resolve astray.profile.profile_dir 1) ≡ false)
unfolding matches_id
too_short = inr (inr (inl refl))

aenter_rejects_example :
    (is_raised (aenter (toy true true) astray (open_context (toy true true) 0)).0 ≡ true)
    × ((aenter (toy true true) astray (open_context (toy true true) 0)).1
        ≡ open_context (toy true true) 0)
unfolding open_context
aenter_rejects_example =
    aenter_rejects (toy true true) astray (open_context (toy true true) 0) too_short
