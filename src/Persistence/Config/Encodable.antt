-- ===== src/Persistence/Config/Encodable.antt =====
-- A projection is JSON that can be encoded.
use sight_stalker.Prelude.{◌≡◌, refl, Bool, true, List, [], ◌∷◌, Option, none, some, Text, text_eq}
use sight_stalker.Models.Browser.{
  ProxyConfig, FingerprintConfig, ColorScheme, ReducedMotion, ViewportConfig, BrowserLaunchConfig,
  BrowserContextConfig,
}
use sight_stalker.Models.Records.{SessionConfig}
use sight_stalker.Persistence.Stored.{
  JsonLibrary, is_encodable, are_items_encodable, are_fields_encodable,
}
use sight_stalker.Persistence.Config.{
  opt_string, string_items, header_fields, launch_fields, context_fields, config_fields,
  proxy_projection, fingerprint_projection, viewport_projection, scheme_json, motion_json,
}

scale_in : (Text → Bool) → Option ViewportConfig → Bool
scale_in is_finite none = true
scale_in is_finite (some v) = is_finite v.device_scale_factor

module _ (json : JsonLibrary) where
  -- The scale factor is not infinite and not NaN.
  unfoldable pub has_finite_scale : SessionConfig → Bool
  unfolding scale_in
  has_finite_scale c = scale_in json.is_finite c.context.viewport

  opt_string-encodable : (o : Option Text) → is_encodable json.is_finite (opt_string o) ≡ true
  unfolding opt_string is_encodable
  opt_string-encodable none = refl
  opt_string-encodable (some t) = refl

  string_items-encodable :
      (ts : List Text) → are_items_encodable json.is_finite (string_items ts) ≡ true
  unfolding string_items are_items_encodable is_encodable
  string_items-encodable [] = refl
  string_items-encodable (t ∷ ts) = string_items-encodable ts

  header_fields-encodable :
      (hs : List (Text × Text)) → are_fields_encodable json.is_finite (header_fields hs) ≡ true
  unfolding header_fields are_fields_encodable is_encodable
  header_fields-encodable [] = refl
  header_fields-encodable ((k, v) ∷ hs) = header_fields-encodable hs

  proxy_projection-encodable :
      (p : Option ProxyConfig) → is_encodable json.is_finite (proxy_projection p) ≡ true
  unfolding is_encodable
  proxy_projection-encodable none = refl
  proxy_projection-encodable (some p) = simp (opt_string-encodable)

  fingerprint_projection-encodable :
      (f : Option FingerprintConfig) → is_encodable json.is_finite (fingerprint_projection f) ≡ true
  unfolding is_encodable
  fingerprint_projection-encodable none = refl
  fingerprint_projection-encodable (some f) = simp (opt_string-encodable)

  viewport_projection-encodable :
      (v : Option ViewportConfig)
      → scale_in json.is_finite v ≡ true
      → is_encodable json.is_finite (viewport_projection v) ≡ true
  unfolding is_encodable scale_in
  viewport_projection-encodable none h = refl
  viewport_projection-encodable (some v) h = rw h refl

  scheme_json-encodable :
      (s : Option ColorScheme) → is_encodable json.is_finite (scheme_json s) ≡ true
  unfolding is_encodable
  scheme_json-encodable none = refl
  scheme_json-encodable (some s) = refl

  motion_json-encodable :
      (m : Option ReducedMotion) → is_encodable json.is_finite (motion_json m) ≡ true
  unfolding is_encodable
  motion_json-encodable none = refl
  motion_json-encodable (some m) = refl

  launch_fields-encodable :
      (l : BrowserLaunchConfig) → are_fields_encodable json.is_finite (launch_fields l) ≡ true
  unfolding launch_fields are_fields_encodable is_encodable
  launch_fields-encodable l =
      simp (string_items-encodable, proxy_projection-encodable, fingerprint_projection-encodable)

  context_fields-encodable :
      (c : BrowserContextConfig)
      → scale_in json.is_finite c.viewport ≡ true
      → are_fields_encodable json.is_finite (context_fields c) ≡ true
  unfolding context_fields are_fields_encodable is_encodable
  context_fields-encodable c h = rw (viewport_projection-encodable c.viewport h) (
      simp (
        opt_string-encodable, scheme_json-encodable, motion_json-encodable, string_items-encodable,
        header_fields-encodable,
      ))

  pub config_fields-encodable :
      (c : SessionConfig)
      → has_finite_scale c ≡ true
      → are_fields_encodable json.is_finite (config_fields c) ≡ true
  unfolding config_fields are_fields_encodable is_encodable has_finite_scale
  config_fields-encodable c h =
      rw (launch_fields-encodable c.launch, context_fields-encodable c.context h) refl
