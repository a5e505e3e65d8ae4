-- ===== src/Environment/Resolver/Precedence.antt =====
-- The precedence of the tiers: run override, selected environment profile, session.
use sight_stalker.Prelude.{
  ◌≡◌, refl, sym, List, [], ◌∷◌, Option, none, some, Text, Outcome, ok, raised, text_eq, or_else,
  arith, ◌>>=◌,
}
use mathlib.Core.Path.{subst}
use mathlib.Core.Option
use sight_stalker.Errors.{Exc}
use sight_stalker.Models.Browser.{BrowserContextConfig, BrowserLaunchConfig}
use sight_stalker.Models.Records.{ProfileRecord, SessionRecord, RunRequest}
use sight_stalker.Security.Redaction.{TextLibrary}
use sight_stalker.Environment.Models.{
  EnvironmentProfile, LaunchConfigOverrides, ContextConfigOverrides, RunConfigOverrides,
  ContextConfigResolution,
}
use sight_stalker.Environment.Services.{
  Profiles, first_of, load_profile, default_services, select_default, override_id,
  apply_environment,
}
use sight_stalker.Environment.Resolver.{
  override_context, override_launch, launch_overrides, context_overrides, environment_overrides,
  environment_step, finish, resolve,
}

-- The first tier that has a value, if any.
abbrev pub tiers {ℓ} : {A : Type ℓ} → List (Option A) → Option A
tiers [] = none
tiers (none ∷ rest) = tiers rest
tiers (some a ∷ rest) = some a

abbrev asked {ℓ κ} : {A : Type ℓ} {B : Type κ} → (A → Option B) → Option A → Option B
asked f none = none
asked f (some a) = f a

-- Each field that the tiers share has its value from the highest tier that has one; the identifier of
-- the profile is that of the profile applied, or else the session's; the others are the session's.
pub record IsLayered (run : Option ContextConfigOverrides) (env : Option EnvironmentProfile)
    (base result : BrowserContextConfig) : Type 0 where
  pub user_agent :
      result.user_agent
      ≡ tiers (asked (λ o. o.user_agent) run ∷ asked (λ e. e.user_agent) env ∷ base.user_agent ∷ [])
  pub viewport :
      result.viewport
      ≡ tiers (asked (λ o. o.viewport) run ∷ asked (λ e. e.viewport) env ∷ base.viewport ∷ [])
  pub locale :
      result.locale
      ≡ tiers (asked (λ o. o.locale) run ∷ asked (λ e. e.locale) env ∷ base.locale ∷ [])
  pub timezone_id :
      result.timezone_id
      ≡ tiers
          (asked (λ o. o.timezone_id) run ∷ asked (λ e. e.timezone_id) env ∷ base.timezone_id ∷ [])
  pub color_scheme :
      result.color_scheme
      ≡ tiers (
          asked (λ o. o.color_scheme) run
          ∷ asked (λ e. e.color_scheme) env
          ∷ base.color_scheme
          ∷ [])
  pub reduced_motion :
      result.reduced_motion
      ≡ tiers (
          asked (λ o. o.reduced_motion) run
          ∷ asked (λ e. e.reduced_motion) env
          ∷ base.reduced_motion
          ∷ [])
  pub default_timeout_ms :
      result.default_timeout_ms
      ≡ or_else (asked (λ o. o.default_timeout_ms) run) base.default_timeout_ms
  pub navigation_timeout_ms :
      result.navigation_timeout_ms
      ≡ or_else (asked (λ o. o.navigation_timeout_ms) run) base.navigation_timeout_ms
  pub environment_profile_id :
      result.environment_profile_id
      ≡ tiers (Option.map (λ e. e.profile_id) env ∷ base.environment_profile_id ∷ [])
  pub accept_downloads : result.accept_downloads ≡ base.accept_downloads
  pub java_script_enabled : result.java_script_enabled ≡ base.java_script_enabled
  pub ignore_https_errors : result.ignore_https_errors ≡ base.ignore_https_errors
  pub extra_http_headers : result.extra_http_headers ≡ base.extra_http_headers
  pub permissions : result.permissions ≡ base.permissions
  pub record_har_path : result.record_har_path ≡ base.record_har_path
  pub record_video_dir : result.record_video_dir ≡ base.record_video_dir

abbrev pub with_environment :
    BrowserContextConfig → Option EnvironmentProfile → BrowserContextConfig
with_environment base none = base
with_environment base (some environment) = apply_environment base environment

first_of-tiers {ℓ} :
    {A : Type ℓ} (run env base : Option A)
    → first_of run (first_of env base) ≡ tiers (run ∷ env ∷ base ∷ [])
first_of-tiers none none none = refl
first_of-tiers none none (some b) = refl
first_of-tiers none (some e) base = refl
first_of-tiers (some r) env base = refl

first_of-base {ℓ} :
    {A : Type ℓ} (run base : Option A) → first_of run base ≡ tiers (run ∷ none ∷ base ∷ [])
first_of-base run base = first_of-tiers run none base

first_of-two {ℓ} : {A : Type ℓ} (base : Option A) → base ≡ tiers (base ∷ [])
first_of-two none = refl
first_of-two (some b) = refl

override_context-IsLayered :
    (run : Option ContextConfigOverrides) (env : Option EnvironmentProfile)
    (base : BrowserContextConfig)
    → IsLayered run env base (override_context (with_environment base env) run)
unfolding override_context apply_environment
override_context-IsLayered none none base = record {
  user_agent = first_of-base none _;
  viewport = first_of-base none _;
  locale = first_of-base none _;
  timezone_id = first_of-base none _;
  color_scheme = first_of-base none _;
  reduced_motion = first_of-base none _;
  default_timeout_ms = refl;
  navigation_timeout_ms = refl;
  environment_profile_id = first_of-two base.environment_profile_id;
  accept_downloads = refl;
  java_script_enabled = refl;
  ignore_https_errors = refl;
  extra_http_headers = refl;
  permissions = refl;
  record_har_path = refl;
  record_video_dir = refl;
}
override_context-IsLayered none (some e) base = record {
  user_agent = first_of-tiers none e.user_agent base.user_agent;
  viewport = first_of-tiers none e.viewport base.viewport;
  locale = first_of-tiers none e.locale base.locale;
  timezone_id = first_of-tiers none e.timezone_id base.timezone_id;
  color_scheme = first_of-tiers none e.color_scheme base.color_scheme;
  reduced_motion = first_of-tiers none e.reduced_motion base.reduced_motion;
  default_timeout_ms = refl;
  navigation_timeout_ms = refl;
  environment_profile_id = refl;
  accept_downloads = refl;
  java_script_enabled = refl;
  ignore_https_errors = refl;
  extra_http_headers = refl;
  permissions = refl;
  record_har_path = refl;
  record_video_dir = refl;
}
override_context-IsLayered (some o) none base = record {
  user_agent = first_of-base o.user_agent _;
  viewport = first_of-base o.viewport _;
  locale = first_of-base o.locale _;
  timezone_id = first_of-base o.timezone_id _;
  color_scheme = first_of-base o.color_scheme _;
  reduced_motion = first_of-base o.reduced_motion _;
  default_timeout_ms = refl;
  navigation_timeout_ms = refl;
  environment_profile_id = first_of-two base.environment_profile_id;
  accept_downloads = refl;
  java_script_enabled = refl;
  ignore_https_errors = refl;
  extra_http_headers = refl;
  permissions = refl;
  record_har_path = refl;
  record_video_dir = refl;
}
override_context-IsLayered (some o) (some e) base = record {
  user_agent = first_of-tiers o.user_agent e.user_agent base.user_agent;
  viewport = first_of-tiers o.viewport e.viewport base.viewport;
  locale = first_of-tiers o.locale e.locale base.locale;
  timezone_id = first_of-tiers o.timezone_id e.timezone_id base.timezone_id;
  color_scheme = first_of-tiers o.color_scheme e.color_scheme base.color_scheme;
  reduced_motion = first_of-tiers o.reduced_motion e.reduced_motion base.reduced_motion;
  default_timeout_ms = refl;
  navigation_timeout_ms = refl;
  environment_profile_id = refl;
  accept_downloads = refl;
  java_script_enabled = refl;
  ignore_https_errors = refl;
  extra_http_headers = refl;
  permissions = refl;
  record_har_path = refl;
  record_video_dir = refl;
}

-- The three fields that a run can override are the run's, or else the session's; the others are the
-- session's.
abbrev pub Launches :
    Option LaunchConfigOverrides → BrowserLaunchConfig → BrowserLaunchConfig → Type 0
Launches run base result =
    (result.mode ≡ or_else (asked (λ o. o.mode) run) base.mode)
    × (result.slow_mo_ms ≡ or_else (asked (λ o. o.slow_mo_ms) run) base.slow_mo_ms)
    × (result.timeout_ms ≡ or_else (asked (λ o. o.timeout_ms) run) base.timeout_ms)
    × (record result {
      mode = base.mode;
      slow_mo_ms = base.slow_mo_ms;
      timeout_ms = base.timeout_ms;
    }
        ≡ base)

override_launch-Launches :
    (run : Option LaunchConfigOverrides) (base : BrowserLaunchConfig)
    → Launches run base (override_launch base run)
unfolding override_launch
override_launch-Launches none base = (refl, refl, refl, refl)
override_launch-Launches (some o) base = (refl, refl, refl, refl)

-- The id that the run asks for, or else the session's.
abbrev pub selected_id : Option RunConfigOverrides → SessionRecord → Option Text
selected_id overrides session = tiers (
    asked (λ o. asked (λ e. e.environment_profile_id) o.environment) overrides
    ∷ session.config.context.environment_profile_id
    ∷ [])

module _ (lib : TextLibrary) (profiles : Profiles) where
  -- `env` is what the store holds under the id, if there is one.
  abbrev pub IsSelected : Option Text → Option EnvironmentProfile → Type 0
  IsSelected none none = Unit
  IsSelected (some id) (some env) = load_profile lib profiles id ≡ ok env
  IsSelected none (some env) = ⊥
  IsSelected (some id) none = ⊥

  -- A resolution that comes to be, and is as the tiers say.
  abbrev pub IsResolved :
      Option RunConfigOverrides
      → Option EnvironmentProfile
      → SessionRecord
      → Outcome Exc ContextConfigResolution
      → Type 0
  IsResolved overrides env session (raised e) = ⊥
  IsResolved overrides env session (ok r) =
      IsLayered (asked (λ o. o.context) overrides) env session.config.context r.context
      × Launches (asked (λ o. o.launch) overrides) session.config.launch r.launch
      × (r.environment_profile_id ≡ selected_id overrides session)

  select-eq :
      (overrides : Option RunConfigOverrides) (session : SessionRecord)
      → first_of
          (override_id (environment_overrides overrides))
          session.config.context.environment_profile_id
        ≡ selected_id overrides session
  unfolding override_id environment_overrides
  select-eq none session = ground arith
  select-eq (some o) session = ground arith

  step-IsResolved :
      (overrides : Option RunConfigOverrides) (env : Option EnvironmentProfile)
      (session : SessionRecord) (id : Option Text)
      → IsSelected id env
      → id ≡ selected_id overrides session
      → IsResolved overrides env session (
          environment_step (default_services lib profiles) session.config.context id >>= λ step.
          ok (finish (default_services lib profiles) session.config.launch overrides id step))
  unfolding environment_step finish context_overrides launch_overrides default_services
  step-IsResolved none none session none h e =
      (override_context-IsLayered none none _, override_launch-Launches none _, e)
  step-IsResolved (some o) none session none h e =
      (override_context-IsLayered o.context none _, override_launch-Launches o.launch _, e)
  step-IsResolved none (some env) session (some id) h e = rw h (
    override_context-IsLayered none (some env) session.config.context,
    override_launch-Launches none _,
    e,
  )
  step-IsResolved (some o) (some env) session (some id) h e = rw h (
    override_context-IsLayered o.context (some env) session.config.context,
    override_launch-Launches o.launch _,
    e,
  )
  step-IsResolved overrides none session (some id) h e = absurd h
  step-IsResolved overrides (some env) session none h e = absurd h

  -- If the store holds the selected environment profile, or none is selected, then the resolution comes
  -- to be. Each context field that the tiers share has its value from the run's overrides, or else the
  -- selected profile, or else the session; the identifier in the context is that of the profile applied,
  -- or else the session's; and the fields that only the session has are the session's. The launch
  -- settings are the session's but for the three that the run can override. The id reported is the one
  -- that the run asks for, or else the session's.
  pub resolve-IsResolved :
      (overrides : Option RunConfigOverrides) (env : Option EnvironmentProfile)
      (profile : ProfileRecord) (session : SessionRecord) (request : RunRequest)
      → IsSelected (selected_id overrides session) env
      → IsResolved overrides env session
          (resolve (default_services lib profiles) profile session request overrides)
  unfolding resolve default_services select_default
  resolve-IsResolved overrides env profile session request h =
      step-IsResolved overrides env session
        (first_of (override_id (environment_overrides overrides))
          session.config.context.environment_profile_id)
        (subst (λ id. IsSelected id env) (sym (select-eq overrides session)) h)
        (select-eq overrides session)
