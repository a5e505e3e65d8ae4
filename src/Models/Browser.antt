-- ===== src/Models/Browser.antt =====
-- models/browser.py: launch and context configuration, and the browser state. A path that the models
-- only carry is its text; a `device_scale_factor`, a float, is the text of its literal.
use sight_stalker.Prelude.{ℕ, Bool, List, Option, Text}
use sight_stalker.Models.Json.{Items, Fields}
use sight_stalker.Models.Identifiers.{BrowserEngineName, BrowserMode}

pub data ViewportPreset : Type 0 where
  desktop_1366x768 desktop_1440x900 desktop_1920x1080 mobile_390x844 custom : ViewportPreset

pub record ViewportConfig : Type 0 where
  pub width : ℕ
  pub height : ℕ
  pub device_scale_factor : Text
  pub is_mobile : Bool
  pub has_touch : Bool
  pub preset : ViewportPreset

pub record ProxyConfig : Type 0 where
  pub server : Text
  pub username : Option Text
  pub password : Option Text
  pub bypass : Option Text
  pub profile_id : Option Text

pub record FingerprintConfig : Type 0 where
  pub profile_id : Option Text
  pub locale : Option Text
  pub timezone_id : Option Text
  pub user_agent : Option Text
  pub extra : Fields

pub data ColorScheme : Type 0 where
  light dark no_preference : ColorScheme

pub data ReducedMotion : Type 0 where
  reduce no_preference : ReducedMotion

pub record BrowserLaunchConfig : Type 0 where
  pub engine_name : BrowserEngineName
  pub mode : BrowserMode
  pub executable_path : Option Text
  pub user_data_dir : Option Text
  pub slow_mo_ms : ℕ
  pub timeout_ms : ℕ
  pub proxy : Option ProxyConfig
  pub fingerprint : Option FingerprintConfig
  pub args : List Text
  pub env : List (Text × Text)
  pub enable_tracing : Bool
  pub enable_video : Bool
  pub enable_console_capture : Bool

pub record BrowserContextConfig : Type 0 where
  pub viewport : Option ViewportConfig
  pub locale : Option Text
  pub timezone_id : Option Text
  pub user_agent : Option Text
  pub color_scheme : Option ColorScheme
  pub reduced_motion : Option ReducedMotion
  pub environment_profile_id : Option Text
  pub accept_downloads : Bool
  pub java_script_enabled : Bool
  pub ignore_https_errors : Bool
  pub default_timeout_ms : ℕ
  pub navigation_timeout_ms : ℕ
  pub extra_http_headers : List (Text × Text)
  pub permissions : List Text
  pub record_har_path : Option Text
  pub record_video_dir : Option Text

pub record BrowserState : Type 0 where
  pub cookies : Items
  pub origins : Items
  pub indexed_db_included : Bool
  pub engine_name : BrowserEngineName
  pub schema_version : Text
