-- ===== src/Ops/Modes.antt =====
-- ops/runs.py: the effective session of `execute_managed_run`, with and without a resolver.
pub mod Branches
use sight_stalker.Prelude.{
  Bool, true, false, not, Option, none, some, Text, codes, Outcome, ok, raised, is_some, ◌==◌,
  if◌then◌else◌, ◌>>=◌,
}
use sight_stalker.Errors.{Exc, project}
use sight_stalker.Models.Identifiers.{BrowserMode, browser_mode_eq}
use sight_stalker.Models.Records.{ProfileRecord, SessionRecord, RunRequest}
use sight_stalker.Security.Redaction.{TextLibrary}
use sight_stalker.Sessions.Manager.State.{mode_of}
use sight_stalker.Resilience.Native.{
  NativeClass, native_error, attributes, usage_error, no_overrides,
}
use sight_stalker.Environment.Models.{
  LaunchConfigOverrides, RunConfigOverrides, ContextConfigResolution,
}

-- `ContextConfigResolver.resolve`
abbrev pub Resolver : Type 0
Resolver =
    ProfileRecord
    → SessionRecord
    → RunRequest
    → Option RunConfigOverrides
    → Outcome Exc ContextConfigResolution

existing_launch : Option RunConfigOverrides → Option LaunchConfigOverrides
existing_launch none = none
existing_launch (some o) = o.launch

existing_mode : Option LaunchConfigOverrides → Option BrowserMode
existing_mode none = none
existing_mode (some o) = o.mode

-- Whether `existing_mode` is given and is another one.
conflicts : Option BrowserMode → BrowserMode → Bool
unfolding browser_mode_eq
conflicts none headed_mode = false
conflicts (some mode) headed_mode = not (mode == headed_mode)

launch_with : Option LaunchConfigOverrides → BrowserMode → LaunchConfigOverrides
launch_with none headed_mode = record {
  mode = some headed_mode;
  slow_mo_ms = none;
  timeout_ms = none;
}
launch_with (some o) headed_mode = record o { mode = some headed_mode }

with_launch : Option RunConfigOverrides → LaunchConfigOverrides → RunConfigOverrides
with_launch none launch = record { launch = some launch; context = none; environment = none }
with_launch (some o) launch = record o { launch = some launch }

unfoldable pub apply_mode_override : SessionRecord → Option Bool → SessionRecord
unfolding mode_of
apply_mode_override session none = session
apply_mode_override session (some is_headed) = record session {
  config = record (session.config) {
    launch = record (session.config.launch) { mode = mode_of is_headed };
  };
}

module _ (lib : TextLibrary) where
  -- `raise UsageError(text)`, and the other classes alike
  unfoldable pub raise_native : NativeClass → Text → Exc
  raise_native cls text = project (native_error lib (attributes cls) text no_overrides)

  unfoldable pub normalize_mode_overrides :
      Option Bool → Option RunConfigOverrides → Outcome Exc (Option RunConfigOverrides)
  unfolding mode_of conflicts existing_mode existing_launch launch_with with_launch raise_native
  normalize_mode_overrides none overrides = ok overrides
  normalize_mode_overrides (some is_headed) overrides =
      if conflicts (existing_mode (existing_launch overrides)) (mode_of is_headed)
      then raised (
          raise_native usage_error (
            codes
              "conflicting launch mode: headed_override disagrees with run override launch.mode"))
      else ok (
          some
            (with_launch overrides (launch_with (existing_launch overrides) (mode_of is_headed))))

  with_resolution : SessionRecord → ContextConfigResolution → SessionRecord
  with_resolution session resolution = record session {
    config = record (session.config) { launch = resolution.launch; context = resolution.context };
  }

  -- The two branches on `context_config_resolver`.
  unfoldable pub effective_session :
      Option Resolver
      → ProfileRecord
      → SessionRecord
      → RunRequest
      → Option Bool
      → Option RunConfigOverrides
      → Outcome Exc SessionRecord
  unfolding normalize_mode_overrides apply_mode_override with_resolution raise_native
  effective_session (some resolver) profile session request headed_override overrides =
      normalize_mode_overrides headed_override overrides >>= λ effective_overrides.
      resolver profile session request effective_overrides >>= λ resolution.
      ok (with_resolution session resolution)
  effective_session none profile session request headed_override overrides =
      if is_some overrides
      then raised (
          raise_native usage_error (codes "run config overrides require a context config resolver"))
      else ok (apply_mode_override session headed_override)
