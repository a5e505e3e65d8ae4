-- ===== src/Environment/Resolver/Modes.antt =====
-- The launch configuration of a resolution, and resolutions without a profile.
use sight_stalker.Prelude.{
  ◌≡◌, refl, List, [], Option, none, some, Text, Outcome, ok, raised, ◌>>=◌,
}
use sight_stalker.Errors.{Exc}
use sight_stalker.Models.Browser.{BrowserLaunchConfig, BrowserContextConfig}
use sight_stalker.Models.Records.{ProfileRecord, SessionRecord, RunRequest}
use sight_stalker.Security.Redaction.{TextLibrary}
use sight_stalker.Environment.Models.{
  LaunchConfigOverrides, RunConfigOverrides, ContextConfigResolution,
}
use sight_stalker.Environment.Services.{
  EnvironmentServices, Profiles, default_services, select_default, override_id,
}
use sight_stalker.Environment.Resolver.{
  override_launch, override_context, launch_overrides, context_overrides, environment_overrides,
  environment_step, finish, resolve,
}

-- The launch configuration depends on the overrides only.
abbrev pub HasLaunch : BrowserLaunchConfig → Outcome Exc ContextConfigResolution → Type 0
HasLaunch launch (raised e) = Unit
HasLaunch launch (ok r) = r.launch ≡ launch

finish-HasLaunch :
    (services : EnvironmentServices) (overrides : Option RunConfigOverrides)
    (session : SessionRecord) (id : Option Text)
    (step : Outcome Exc (BrowserContextConfig × List Text))
    → HasLaunch
        (override_launch session.config.launch (launch_overrides overrides))
        (step >>= λ s. ok (finish services session.config.launch overrides id s))
unfolding finish
finish-HasLaunch services overrides session id (raised e) = tt
finish-HasLaunch services overrides session id (ok (context, names)) = refl

selected-HasLaunch :
    (services : EnvironmentServices) (overrides : Option RunConfigOverrides)
    (session : SessionRecord) (selected : Outcome Exc (Option Text))
    → HasLaunch (override_launch session.config.launch (launch_overrides overrides)) (
        selected >>= λ id. environment_step services session.config.context id >>= λ s.
        ok (finish services session.config.launch overrides id s))
selected-HasLaunch services overrides session (raised e) = tt
selected-HasLaunch services overrides session (ok id) =
    finish-HasLaunch services overrides session id
      (environment_step services session.config.context id)

pub resolve-HasLaunch :
    (services : EnvironmentServices) (overrides : Option RunConfigOverrides)
    (profile : ProfileRecord) (session : SessionRecord) (request : RunRequest)
    → HasLaunch
        (override_launch session.config.launch (launch_overrides overrides))
        (resolve services profile session request overrides)
unfolding resolve
resolve-HasLaunch services overrides profile session request =
    selected-HasLaunch services overrides session
      (services.select profile session request (environment_overrides overrides))

-- Without a profile, the resolution is made of the session's configuration and the overrides.
pub resolve-no_profile :
    (lib : TextLibrary) (profiles : Profiles) (launch : Option LaunchConfigOverrides)
    (profile : ProfileRecord) (session : SessionRecord) (request : RunRequest)
    → session.config.context.environment_profile_id ≡ none
    → resolve
        (default_services lib profiles)
        profile
        session
        request
        (some (record { launch = launch; context = none; environment = none }))
      ≡ ok (record {
        launch = override_launch session.config.launch launch;
        context = session.config.context;
        environment_profile_id = none;
        applied_environment_fields = [];
      })
unfolding resolve default_services select_default override_id environment_overrides environment_step
    finish context_overrides launch_overrides override_context
resolve-no_profile lib profiles launch profile session request h = rw h refl

pub resolve-no_overrides :
    (lib : TextLibrary) (profiles : Profiles) (profile : ProfileRecord) (session : SessionRecord)
    (request : RunRequest)
    → session.config.context.environment_profile_id ≡ none
    → resolve (default_services lib profiles) profile session request none
      ≡ ok (record {
        launch = session.config.launch;
        context = session.config.context;
        environment_profile_id = none;
        applied_environment_fields = [];
      })
unfolding resolve default_services select_default override_id environment_overrides environment_step
    finish context_overrides launch_overrides override_context override_launch
resolve-no_overrides lib profiles profile session request h = rw h refl
