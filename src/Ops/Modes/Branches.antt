-- ===== src/Ops/Modes/Branches.antt =====
-- The two branches of `execute_managed_run` on a resolver.
use sight_stalker.Prelude.{
  ◌≡◌, refl, ap, ◌∙◌, Bool, Option, none, some, Outcome, ok, raised, ◌>>=◌, if◌then◌else◌,
  Bool-cases, inl, inr, is_some, codes,
}
use sight_stalker.Resilience.Native.{usage_error}
use sight_stalker.Errors.{Exc}
use sight_stalker.Models.Identifiers.{BrowserMode, browser_mode_eq}
use sight_stalker.Models.Records.{ProfileRecord, SessionRecord, RunRequest}
use sight_stalker.Security.Redaction.{TextLibrary}
use sight_stalker.Sessions.Manager.State.{mode_of}
use sight_stalker.Environment.Models.{
  LaunchConfigOverrides, RunConfigOverrides, ContextConfigResolution,
}
use sight_stalker.Environment.Services.{EnvironmentServices, Profiles, default_services}
use sight_stalker.Environment.Resolver.{resolve, override_launch, launch_overrides}
use sight_stalker.Environment.Resolver.Modes.{
  HasLaunch, resolve-HasLaunch, resolve-no_profile, resolve-no_overrides,
}
use sight_stalker.Ops.Modes.{
  existing_launch, existing_mode, conflicts, launch_with, with_launch, apply_mode_override,
  raise_native, normalize_mode_overrides, with_resolution, effective_session,
}

module _ (lib : TextLibrary) (profiles : Profiles) where
  -- For a session that names no environment profile, and without further overrides, a run with the
  -- default resolver is given the same effective session as a run without a resolver, whatever the
  -- headed override is.
  pub effective_session-agrees :
      (headed_override : Option Bool) (profile : ProfileRecord) (session : SessionRecord)
      (request : RunRequest)
      → session.config.context.environment_profile_id ≡ none
      → effective_session lib
          (some (resolve (default_services lib profiles)))
          profile
          session
          request
          headed_override
          none
        ≡ effective_session lib none profile session request headed_override none
  unfolding effective_session normalize_mode_overrides conflicts existing_mode existing_launch
      launch_with with_launch with_resolution apply_mode_override override_launch
  effective_session-agrees none profile session request h =
      ap (λ r. r >>= λ resolution. ok (with_resolution lib session resolution))
        (resolve-no_overrides lib profiles profile session request h)
  effective_session-agrees (some is_headed) profile session request h =
      ap (λ r. r >>= λ resolution. ok (with_resolution lib session resolution))
        (resolve-no_profile lib profiles
          (some (record { mode = some (mode_of is_headed); slow_mo_ms = none; timeout_ms = none }))
          profile session request h)

-- The browser is launched in this mode, if the run gets that far.
abbrev pub HasMode : BrowserMode → Outcome Exc SessionRecord → Type 0
HasMode mode (raised e) = Unit
HasMode mode (ok session) = session.config.launch.mode ≡ mode

module _ (lib : TextLibrary) (services : EnvironmentServices) where
  resolved-HasMode :
      (overrides : RunConfigOverrides) (session : SessionRecord) (mode : BrowserMode)
      (r : Outcome Exc ContextConfigResolution)
      → (override_launch session.config.launch overrides.launch).mode ≡ mode
      → HasLaunch (override_launch session.config.launch (launch_overrides (some overrides))) r
      → HasMode mode (r >>= λ resolution. ok (with_resolution lib session resolution))
  unfolding with_resolution launch_overrides
  resolved-HasMode overrides session mode (raised e) m h = tt
  resolved-HasMode overrides session mode (ok r) m h = ap (λ launch. launch.mode) h ∙ m

  headed_alone :
      (overrides : Option RunConfigOverrides) (session : SessionRecord) (is_headed : Bool)
      → HasMode (mode_of is_headed) (
          if is_some overrides
          then raised (
              raise_native lib usage_error
                (codes "run config overrides require a context config resolver"))
          else ok (apply_mode_override session (some is_headed)))
  unfolding apply_mode_override
  headed_alone none session is_headed = refl
  headed_alone (some o) session is_headed = tt

  launch_with-mode :
      (session : SessionRecord) (o : Option LaunchConfigOverrides) (mode : BrowserMode)
      → (override_launch session.config.launch (some (launch_with o mode))).mode ≡ mode
  unfolding override_launch launch_with
  launch_with-mode session none mode = refl
  launch_with-mode session (some o) mode = refl

  with_launch-HasMode :
      (overrides : Option RunConfigOverrides) (profile : ProfileRecord) (session : SessionRecord)
      (request : RunRequest) (mode : BrowserMode)
      → HasMode mode (
          resolve services profile session request
            (some (with_launch overrides (launch_with (existing_launch overrides) mode)))
          >>= λ resolution. ok (with_resolution lib session resolution))
  unfolding with_launch existing_launch
  with_launch-HasMode none profile session request mode =
      resolved-HasMode _ session mode _ (launch_with-mode session none mode)
        (resolve-HasLaunch services _ profile session request)
  with_launch-HasMode (some o) profile session request mode =
      resolved-HasMode _ session mode _ (launch_with-mode session o.launch mode)
        (resolve-HasLaunch services _ profile session request)

  -- A headed override, or its negation, decides the mode: whatever services and overrides there are,
  -- and whether or not the default resolver is used, the effective session launches in that mode, if
  -- there is an effective session.
  pub effective_session-HasMode :
      (is_headed : Bool) (overrides : Option RunConfigOverrides) (profile : ProfileRecord)
      (session : SessionRecord) (request : RunRequest)
      → HasMode (mode_of is_headed) (
          effective_session lib
            (some (resolve services))
            profile
            session
            request
            (some is_headed)
            overrides)
        × HasMode
            (mode_of is_headed)
            (effective_session lib none profile session request (some is_headed) overrides)
  unfolding effective_session normalize_mode_overrides apply_mode_override
  effective_session-HasMode is_headed overrides profile session request = (
    elim (Bool-cases (conflicts (existing_mode (existing_launch overrides)) (mode_of is_headed))) [
      | inl clash ↦ rw clash tt
      | inr agree ↦
          rw agree (with_launch-HasMode overrides profile session request (mode_of is_headed))
    ],
    headed_alone overrides session is_headed,
  )
