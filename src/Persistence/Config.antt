-- ===== src/Persistence/Config.antt =====
-- persistence/serialization.py: `persistable_session_config`, which projects a live configuration.
pub mod Rebuild
pub mod Kept
pub mod Reads
pub mod Encodable
pub mod Roundtrip
pub mod Accepts
use sight_stalker.Prelude.{
  ℕ, Bool, true, false, ◌||◌, List, [], ◌∷◌, Option, none, some, Text, codes, Outcome, ok, raised,
  is_some, if◌then◌else◌, ◌>>◌,
}
use sight_stalker.Errors.{Exc}
use sight_stalker.Models.Browser.{
  ViewportConfig, ProxyConfig, FingerprintConfig, BrowserLaunchConfig, BrowserContextConfig,
  ColorScheme, ReducedMotion,
}
use sight_stalker.Models.Json.{
  Json, Items, Fields, null, boolean, natural, number, string, array, object, nil, cons, end, field,
}
use sight_stalker.Models.Literals.{
  engine_text, mode_text, preset_text, color_scheme_text, reduced_motion_text,
}
use sight_stalker.Models.Records.{SessionConfig}
use sight_stalker.Security.Redaction.{TextLibrary, is_sensitive_key, is_sensitive_header}
use sight_stalker.Persistence.Stored.{security_error}

abbrev is_nonempty {ℓ} : {A : Type ℓ} → List A → Bool
is_nonempty [] = false
is_nonempty (x ∷ xs) = true

abbrev has_fields : Fields → Bool
has_fields end = false
has_fields (field k v d) = true

abbrev has_password : Option ProxyConfig → Bool
has_password none = false
has_password (some p) = is_some p.password

abbrev has_extra : Option FingerprintConfig → Bool
has_extra none = false
has_extra (some f) = has_fields f.extra

-- `raise PersistenceSecurityError(text)`, if the field is there.
abbrev pub refuse_if : Bool → Text → Outcome Exc (Unit {0})
refuse_if b text = if b then raised (security_error text) else ok tt

-- The strings of a value that may be `None`, and of a tuple.
unfoldable pub opt_string : Option Text → Json
opt_string none = null
opt_string (some t) = string t

unfoldable pub string_items : List Text → Items
string_items [] = nil
string_items (t ∷ ts) = cons (string t) (string_items ts)

unfoldable pub header_fields : List (Text × Text) → Fields
header_fields [] = end
header_fields ((k, v) ∷ hs) = field k (string v) (header_fields hs)

abbrev scheme_json : Option ColorScheme → Json
scheme_json none = null
scheme_json (some s) = string (color_scheme_text s)

abbrev motion_json : Option ReducedMotion → Json
motion_json none = null
motion_json (some m) = string (reduced_motion_text m)

abbrev proxy_fields : ProxyConfig → Fields
proxy_fields p = field (codes "server") (string p.server) (
    field (codes "username") (opt_string p.username) (
      field (codes "bypass") (opt_string p.bypass)
        (field (codes "profile_id") (opt_string p.profile_id) end)))

abbrev proxy_projection : Option ProxyConfig → Json
proxy_projection none = null
proxy_projection (some p) = object (proxy_fields p)

abbrev fingerprint_fields : FingerprintConfig → Fields
fingerprint_fields f = field (codes "profile_id") (opt_string f.profile_id) (
    field (codes "locale") (opt_string f.locale)
      (field (codes "timezone_id") (opt_string f.timezone_id) end))

abbrev fingerprint_projection : Option FingerprintConfig → Json
fingerprint_projection none = null
fingerprint_projection (some f) = object (fingerprint_fields f)

abbrev viewport_fields : ViewportConfig → Fields
viewport_fields v = field (codes "width") (natural v.width) (
    field (codes "height") (natural v.height) (
      field (codes "device_scale_factor") (number v.device_scale_factor) (
        field (codes "is_mobile") (boolean v.is_mobile) (
          field (codes "has_touch") (boolean v.has_touch)
            (field (codes "preset") (string (preset_text v.preset)) end)))))

abbrev viewport_projection : Option ViewportConfig → Json
viewport_projection none = null
viewport_projection (some v) = object (viewport_fields v)

unfoldable pub launch_fields : BrowserLaunchConfig → Fields
unfolding engine_text mode_text opt_string string_items
launch_fields l = field (codes "engine_name") (string (engine_text l.engine_name)) (
    field (codes "mode") (string (mode_text l.mode)) (
      field (codes "slow_mo_ms") (natural l.slow_mo_ms) (
        field (codes "timeout_ms") (natural l.timeout_ms) (
          field (codes "args") (array (string_items l.args)) (
            field (codes "enable_tracing") (boolean l.enable_tracing) (
              field (codes "enable_video") (boolean l.enable_video) (
                field (codes "enable_console_capture") (boolean l.enable_console_capture) (
                  field (codes "proxy") (proxy_projection l.proxy)
                    (field (codes "fingerprint") (fingerprint_projection l.fingerprint) end)))))))))

unfoldable pub context_fields : BrowserContextConfig → Fields
unfolding color_scheme_text reduced_motion_text preset_text opt_string string_items header_fields
context_fields c = field (codes "viewport") (viewport_projection c.viewport) (
    field (codes "locale") (opt_string c.locale) (
      field (codes "timezone_id") (opt_string c.timezone_id) (
        field (codes "user_agent") (opt_string c.user_agent) (
          field (codes "color_scheme") (scheme_json c.color_scheme) (
            field (codes "reduced_motion") (motion_json c.reduced_motion) (
              field (codes "environment_profile_id") (opt_string c.environment_profile_id) (
                field (codes "accept_downloads") (boolean c.accept_downloads) (
                  field (codes "java_script_enabled") (boolean c.java_script_enabled) (
                    field (codes "ignore_https_errors") (boolean c.ignore_https_errors) (
                      field (codes "default_timeout_ms") (natural c.default_timeout_ms) (
                        field (codes "navigation_timeout_ms") (natural c.navigation_timeout_ms) (
                          field (codes "permissions") (array (string_items c.permissions)) (
                            field (codes "extra_http_headers")
                              (object (header_fields c.extra_http_headers)) end)))))))))))))

unfoldable pub config_fields : SessionConfig → Fields
unfolding launch_fields context_fields
config_fields c = field (codes "launch") (object (launch_fields c.launch)) (
    field (codes "context") (object (context_fields c.context)) (
      field (codes "persist_storage_state") (boolean c.persist_storage_state) (
        field (codes "capture_initial_storage_state") (boolean c.capture_initial_storage_state) (
          field (codes "capture_final_storage_state") (boolean c.capture_final_storage_state) (
            field (codes "screenshot_on_failure") (boolean c.screenshot_on_failure)
              (field (codes "trace_on_failure") (boolean c.trace_on_failure) end))))))

module _ (lib : TextLibrary) where
  unfoldable pub has_sensitive_header : List (Text × Text) → Bool
  unfolding is_sensitive_header is_sensitive_key
  has_sensitive_header [] = false
  has_sensitive_header ((name, value) ∷ headers) =
      (is_sensitive_header lib name || is_sensitive_key lib name) || has_sensitive_header headers

  -- The checks, in the code's order.
  config_checks : SessionConfig → Outcome Exc (Unit {0})
  unfolding has_sensitive_header
  config_checks c = do
    refuse_if (is_nonempty c.launch.env) (codes "session config launch.env must be empty")
    refuse_if (is_some c.launch.executable_path)
        (codes "session config launch.executable_path is not persistable")
    refuse_if (is_some c.launch.user_data_dir)
        (codes "session config launch.user_data_dir is not persistable")
    refuse_if (has_password c.launch.proxy)
        (codes "session config proxy password is not persistable")
    refuse_if (has_extra c.launch.fingerprint)
        (codes "session config fingerprint.extra is not persistable")
    refuse_if (has_sensitive_header c.context.extra_http_headers)
        (codes "session config contains sensitive HTTP headers")
    refuse_if (is_some c.context.record_har_path)
        (codes "session config context.record_har_path is not persistable")
    refuse_if (is_some c.context.record_video_dir)
        (codes "session config context.record_video_dir is not persistable")

  projected : SessionConfig → Outcome Exc (Unit {0}) → Outcome Exc Fields
  unfolding config_fields
  projected c (raised e) = raised e
  projected c (ok _) = ok (config_fields c)

  unfoldable pub persistable_session_config : SessionConfig → Outcome Exc Fields
  unfolding config_checks projected
  persistable_session_config c = projected c (config_checks c)
