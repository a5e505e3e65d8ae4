-- ===== src/Environment/Models.antt =====
-- environment/models.py. A `device_memory_gb`, a float, is the text of its literal.
use sight_stalker.Prelude.{ℕ, List, Option, Text}
use sight_stalker.Models.Browser.{
  ViewportConfig, ColorScheme, ReducedMotion, BrowserLaunchConfig, BrowserContextConfig,
}
use sight_stalker.Models.Identifiers.{BrowserMode}

pub record NavigatorProfile : Type 0 where
  pub platform : Option Text
  pub languages : List Text
  pub hardware_concurrency : Option ℕ
  pub device_memory_gb : Option Text

pub record EnvironmentProfile : Type 0 where
  pub profile_id : Text
  pub name : Text
  pub description : Option Text
  pub user_agent : Option Text
  pub viewport : Option ViewportConfig
  pub locale : Option Text
  pub timezone_id : Option Text
  pub color_scheme : Option ColorScheme
  pub reduced_motion : Option ReducedMotion
  pub navigator : Option NavigatorProfile
  pub schema_version : Text

pub record LaunchConfigOverrides : Type 0 where
  pub mode : Option BrowserMode
  pub slow_mo_ms : Option ℕ
  pub timeout_ms : Option ℕ

pub record ContextConfigOverrides : Type 0 where
  pub user_agent : Option Text
  pub viewport : Option ViewportConfig
  pub locale : Option Text
  pub timezone_id : Option Text
  pub color_scheme : Option ColorScheme
  pub reduced_motion : Option ReducedMotion
  pub default_timeout_ms : Option ℕ
  pub navigation_timeout_ms : Option ℕ

pub record EnvironmentResolutionOverrides : Type 0 where
  pub environment_profile_id : Option Text

pub record RunConfigOverrides : Type 0 where
  pub launch : Option LaunchConfigOverrides
  pub context : Option ContextConfigOverrides
  pub environment : Option EnvironmentResolutionOverrides

pub record ContextConfigResolution : Type 0 where
  pub launch : BrowserLaunchConfig
  pub context : BrowserContextConfig
  pub environment_profile_id : Option Text
  pub applied_environment_fields : List Text
