-- ===== src/Environment/Resolver.antt =====
-- environment/resolver.py: `DefaultContextConfigResolver.resolve`.
pub mod Precedence
pub mod Marker
pub mod Applied
pub mod Modes
use sight_stalker.Prelude.{
  text_le, ℕ, Bool, true, false, not, ◌&&◌, ◌||◌, List, [], ◌∷◌, Option, none, some, Text, codes,
  Outcome, ok, raised, ltb, nat_eq, contains, text_eq, or_else, if◌then◌else◌, ◌>>=◌,
}
use sight_stalker.Errors.{Exc}
use sight_stalker.Models.Browser.{BrowserLaunchConfig, BrowserContextConfig}
use sight_stalker.Models.Records.{ProfileRecord, SessionRecord, RunRequest}
use sight_stalker.Environment.Models.{
  EnvironmentProfile, LaunchConfigOverrides, ContextConfigOverrides, EnvironmentResolutionOverrides,
  RunConfigOverrides, ContextConfigResolution,
}
use sight_stalker.Environment.Services.{EnvironmentServices, first_of}

-- The key is set if there is a value.
abbrev pub present {ℓ} : {A : Type ℓ} → Text → Option A → List Text → List Text
present name none rest = rest
present name (some value) rest = name ∷ rest

-- The keys of `env_contributed`, in the order of ENVIRONMENT_CONTEXT_FIELDS.
unfoldable pub env_contributed : EnvironmentProfile → List Text
env_contributed environment = present (codes "color_scheme") environment.color_scheme (
    present (codes "locale") environment.locale (
      present (codes "reduced_motion") environment.reduced_motion (
        present (codes "timezone_id") environment.timezone_id (
          present (codes "user_agent") environment.user_agent
            (present (codes "viewport") environment.viewport [])))))

-- `overridden_context_fields`
unfoldable pub overridden_context_fields : Option ContextConfigOverrides → List Text
overridden_context_fields none = []
overridden_context_fields (some o) = present (codes "user_agent") o.user_agent (
    present (codes "viewport") o.viewport (
      present (codes "locale") o.locale (
        present (codes "timezone_id") o.timezone_id (
          present (codes "color_scheme") o.color_scheme (
            present (codes "reduced_motion") o.reduced_motion (
              present (codes "default_timeout_ms") o.default_timeout_ms
                (present (codes "navigation_timeout_ms") o.navigation_timeout_ms [])))))))

unfoldable pub override_launch :
    BrowserLaunchConfig → Option LaunchConfigOverrides → BrowserLaunchConfig
override_launch launch none = launch
override_launch launch (some o) = record launch {
  mode = or_else o.mode launch.mode;
  slow_mo_ms = or_else o.slow_mo_ms launch.slow_mo_ms;
  timeout_ms = or_else o.timeout_ms launch.timeout_ms;
}

unfoldable pub override_context :
    BrowserContextConfig → Option ContextConfigOverrides → BrowserContextConfig
override_context context none = context
override_context context (some o) = record context {
  user_agent = first_of o.user_agent context.user_agent;
  viewport = first_of o.viewport context.viewport;
  locale = first_of o.locale context.locale;
  timezone_id = first_of o.timezone_id context.timezone_id;
  color_scheme = first_of o.color_scheme context.color_scheme;
  reduced_motion = first_of o.reduced_motion context.reduced_motion;
  default_timeout_ms = or_else o.default_timeout_ms context.default_timeout_ms;
  navigation_timeout_ms = or_else o.navigation_timeout_ms context.navigation_timeout_ms;
}

insert : Text → List Text → List Text
unfolding text_le
insert name [] = name ∷ []
insert name (x ∷ xs) =
    let rest = insert name xs in if text_le name x then name ∷ x ∷ xs else x ∷ rest

-- `sorted(names)`
unfoldable pub sorted : List Text → List Text
unfolding insert
sorted [] = []
sorted (x ∷ xs) = insert x (sorted xs)

without : List Text → List Text → List Text
unfolding text_eq
without names [] = []
without names (x ∷ xs) = let rest = without names xs in if contains names x then rest else x ∷ rest

-- Step 4.
unfoldable pub applied_fields : List Text → List Text → List Text
unfolding sorted without
applied_fields contributed overridden = sorted (without overridden contributed)

unfoldable pub launch_overrides : Option RunConfigOverrides → Option LaunchConfigOverrides
launch_overrides none = none
launch_overrides (some o) = o.launch

pub context_overrides : Option RunConfigOverrides → Option ContextConfigOverrides
context_overrides none = none
context_overrides (some o) = o.context

unfoldable pub environment_overrides :
    Option RunConfigOverrides → Option EnvironmentResolutionOverrides
environment_overrides none = none
environment_overrides (some o) = o.environment

module _ (services : EnvironmentServices) where
  -- Step 2: the context with the selected profile applied, and the keys that the profile contributed.
  environment_step :
      BrowserContextConfig → Option Text → Outcome Exc (BrowserContextConfig × List Text)
  unfolding env_contributed
  environment_step context none = ok (context, [])
  environment_step context (some id) = services.load id >>= λ environment.
      ok (services.apply context environment, env_contributed environment)

  -- Steps 3 and 4.
  finish :
      BrowserLaunchConfig
      → Option RunConfigOverrides
      → Option Text
      → BrowserContextConfig × List Text
      → ContextConfigResolution
  unfolding launch_overrides context_overrides override_launch override_context applied_fields
      overridden_context_fields
  finish launch overrides selected_id (context_after_env, contributed) = record {
    launch = override_launch launch (launch_overrides overrides);
    context = override_context context_after_env (context_overrides overrides);
    environment_profile_id = selected_id;
    applied_environment_fields =
        applied_fields contributed (overridden_context_fields (context_overrides overrides));
  }

  unfoldable pub resolve :
      ProfileRecord
      → SessionRecord
      → RunRequest
      → Option RunConfigOverrides
      → Outcome Exc ContextConfigResolution
  unfolding environment_overrides environment_step finish
  resolve profile session request overrides =
      services.select profile session request (environment_overrides overrides) >>= λ selected_id.
      environment_step session.config.context selected_id >>= λ step.
      ok (finish session.config.launch overrides selected_id step)
