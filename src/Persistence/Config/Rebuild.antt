-- ===== src/Persistence/Config/Rebuild.antt =====
-- `_session_config_from_projection`. pydantic's checks of ranges are left out.
use sight_stalker.Prelude.{
  true, false, List, [], ◌∷◌, Option, none, some, Text, codes, Outcome, ok, raised, or_else, ◌==◌,
  text_eq, if◌then◌else◌, ◌>>=◌,
}
use sight_stalker.Errors.{Exc, plain, other_exception}
use sight_stalker.Models.Browser.{
  ViewportConfig, ProxyConfig, FingerprintConfig, BrowserLaunchConfig, BrowserContextConfig,
  ColorScheme, ReducedMotion,
}
use sight_stalker.Models.Json.{
  Json, Items, Fields, null, boolean, natural, number, string, array, object, nil, cons, end, field,
  get_field,
}
use sight_stalker.Models.Literals.{engine_of, browser_mode_of, preset_of}
use sight_stalker.Models.Records.{SessionConfig}
use sight_stalker.Persistence.Stored.{
  JsonLibrary, integrity_error, str_of, int_of, float_of, bool_of,
}

-- `d.get(key, default)`
unfoldable pub get_or : Text → Json → Fields → Json
unfolding get_field text_eq
get_or key default d = or_else (get_field key d) default

unfoldable pub as_object : Json → Outcome Exc Fields
as_object (object d) = ok d
as_object _ = raised (integrity_error (codes "stored session config is malformed"))

unfoldable pub as_list : Json → Items
as_list (array items) = items
as_list _ = nil

-- `d[key]`
unfoldable pub required : Text → Option Json → Outcome Exc Json
required key none = raised (plain other_exception (codes "KeyError") key)
required key (some v) = ok v

abbrev no_fields : Json
no_fields = object end

module _ (json : JsonLibrary) where
  unfoldable pub opt_str : Json → Option Text
  unfolding str_of
  opt_str null = none
  opt_str v = some (str_of json v)

  unfoldable pub strings : Items → List Text
  unfolding str_of
  strings nil = []
  strings (cons v items) = str_of json v ∷ strings items

  unfoldable pub headers : Fields → List (Text × Text)
  unfolding str_of
  headers end = []
  headers (field k v d) = (k, str_of json v) ∷ headers d

  scheme_of : Option Text → Option ColorScheme
  unfolding text_eq
  scheme_of none = none
  scheme_of (some t) =
      if t == codes "light"
      then some ColorScheme.light
      else if t == codes "dark"
      then some ColorScheme.dark
      else if t == codes "no-preference"
      then some ColorScheme.no_preference
      else none

  motion_of : Option Text → Option ReducedMotion
  unfolding text_eq
  motion_of none = none
  motion_of (some t) =
      if t == codes "reduce"
      then some ReducedMotion.reduce
      else if t == codes "no-preference"
      then some ReducedMotion.no_preference
      else none

  unfoldable pub opt_color_scheme : Json → Option ColorScheme
  unfolding scheme_of opt_str
  opt_color_scheme v = scheme_of (opt_str v)

  unfoldable pub opt_reduced_motion : Json → Option ReducedMotion
  unfolding motion_of opt_str
  opt_reduced_motion v = motion_of (opt_str v)

  -- `isinstance(proxy_raw, dict)`
  unfoldable pub rebuild_proxy : Json → Option ProxyConfig
  unfolding get_or str_of opt_str
  rebuild_proxy (object d) = some (record {
    server = str_of json (get_or (codes "server") (string []) d);
    username = opt_str (get_or (codes "username") null d);
    password = none;
    bypass = opt_str (get_or (codes "bypass") null d);
    profile_id = opt_str (get_or (codes "profile_id") null d);
  })
  rebuild_proxy _ = none

  unfoldable pub rebuild_fingerprint : Json → Option FingerprintConfig
  unfolding get_or opt_str
  rebuild_fingerprint (object d) = some (record {
    profile_id = opt_str (get_or (codes "profile_id") null d);
    locale = opt_str (get_or (codes "locale") null d);
    timezone_id = opt_str (get_or (codes "timezone_id") null d);
    user_agent = none;
    extra = end;
  })
  rebuild_fingerprint _ = none

  unfoldable pub rebuild_viewport : Json → Outcome Exc (Option ViewportConfig)
  unfolding get_or required int_of float_of str_of bool_of preset_of get_field
  rebuild_viewport (object d) = do
    raw_width ← required (codes "width") (get_field (codes "width") d)
    width ← int_of json raw_width
    raw_height ← required (codes "height") (get_field (codes "height") d)
    height ← int_of json raw_height
    scale ← float_of json (get_or (codes "device_scale_factor") (number (codes "1.0")) d)
    preset ← preset_of (str_of json (get_or (codes "preset") (string (codes "custom")) d))
    ok (
        some (record {
          width = width;
          height = height;
          device_scale_factor = scale;
          is_mobile = bool_of json (get_or (codes "is_mobile") (boolean false) d);
          has_touch = bool_of json (get_or (codes "has_touch") (boolean false) d);
          preset = preset;
        }))
  rebuild_viewport _ = ok none

  unfoldable pub rebuild_launch : Fields → Outcome Exc BrowserLaunchConfig
  unfolding get_or int_of str_of bool_of strings as_list engine_of browser_mode_of rebuild_proxy
      rebuild_fingerprint
  rebuild_launch d = do
    slow_mo_ms ← int_of json (get_or (codes "slow_mo_ms") (natural 0) d)
    timeout_ms ← int_of json (get_or (codes "timeout_ms") (natural 30_000) d)
    engine_name ←
        engine_of (str_of json (get_or (codes "engine_name") (string (codes "camoufox")) d))
    mode ← browser_mode_of (str_of json (get_or (codes "mode") (string (codes "headless")) d))
    ok (record {
      engine_name = engine_name;
      mode = mode;
      executable_path = none;
      user_data_dir = none;
      slow_mo_ms = slow_mo_ms;
      timeout_ms = timeout_ms;
      proxy = rebuild_proxy (get_or (codes "proxy") null d);
      fingerprint = rebuild_fingerprint (get_or (codes "fingerprint") null d);
      args = strings (as_list (get_or (codes "args") (array nil) d));
      env = [];
      enable_tracing = bool_of json (get_or (codes "enable_tracing") (boolean false) d);
      enable_video = bool_of json (get_or (codes "enable_video") (boolean false) d);
      enable_console_capture =
          bool_of json (get_or (codes "enable_console_capture") (boolean true) d);
    })

  unfoldable pub rebuild_context : Fields → Outcome Exc BrowserContextConfig
  unfolding get_or int_of bool_of strings as_list as_object headers opt_str opt_color_scheme
      opt_reduced_motion rebuild_viewport
  rebuild_context d = do
    viewport ← rebuild_viewport (get_or (codes "viewport") null d)
    default_timeout_ms ← int_of json (get_or (codes "default_timeout_ms") (natural 30_000) d)
    navigation_timeout_ms ← int_of json (get_or (codes "navigation_timeout_ms") (natural 45_000) d)
    header_object ← as_object (get_or (codes "extra_http_headers") no_fields d)
    ok (record {
      viewport = viewport;
      locale = opt_str (get_or (codes "locale") null d);
      timezone_id = opt_str (get_or (codes "timezone_id") null d);
      user_agent = opt_str (get_or (codes "user_agent") null d);
      color_scheme = opt_color_scheme (get_or (codes "color_scheme") null d);
      reduced_motion = opt_reduced_motion (get_or (codes "reduced_motion") null d);
      environment_profile_id = opt_str (get_or (codes "environment_profile_id") null d);
      accept_downloads = bool_of json (get_or (codes "accept_downloads") (boolean false) d);
      java_script_enabled = bool_of json (get_or (codes "java_script_enabled") (boolean true) d);
      ignore_https_errors = bool_of json (get_or (codes "ignore_https_errors") (boolean false) d);
      default_timeout_ms = default_timeout_ms;
      navigation_timeout_ms = navigation_timeout_ms;
      extra_http_headers = headers header_object;
      permissions = strings (as_list (get_or (codes "permissions") (array nil) d));
      record_har_path = none;
      record_video_dir = none;
    })

  unfoldable pub session_config_from_projection : Fields → Outcome Exc SessionConfig
  unfolding get_or as_object bool_of rebuild_launch rebuild_context
  session_config_from_projection d = do
    launch_proj ← as_object (get_or (codes "launch") no_fields d)
    context_proj ← as_object (get_or (codes "context") no_fields d)
    launch ← rebuild_launch launch_proj
    context ← rebuild_context context_proj
    ok (record {
      launch = launch;
      context = context;
      persist_storage_state =
          bool_of json (get_or (codes "persist_storage_state") (boolean true) d);
      capture_initial_storage_state =
          bool_of json (get_or (codes "capture_initial_storage_state") (boolean true) d);
      capture_final_storage_state =
          bool_of json (get_or (codes "capture_final_storage_state") (boolean true) d);
      screenshot_on_failure =
          bool_of json (get_or (codes "screenshot_on_failure") (boolean true) d);
      trace_on_failure = bool_of json (get_or (codes "trace_on_failure") (boolean true) d);
    })
