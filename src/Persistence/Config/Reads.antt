-- ===== src/Persistence/Config/Reads.antt =====
-- Each part of a projection is read back from its sorted fields.
use sight_stalker.Prelude.{
  ◌≡◌, refl, ap, List, [], ◌∷◌, Option, none, some, Text, ok, arith, text_eq, text_le,
}
use sight_stalker.Models.Browser.{
  ViewportConfig, ProxyConfig, FingerprintConfig, BrowserLaunchConfig, BrowserContextConfig,
  ColorScheme, ReducedMotion,
}
use sight_stalker.Models.Json.{string, get_field}
use sight_stalker.Models.Literals.{
  engine_of-text, browser_mode_of-text, preset_of-text, color_scheme_text, reduced_motion_text,
  preset_text,
}
use sight_stalker.Persistence.Stored.{
  JsonLibrary, str_of, sort_value, sort_items, sort_fields, insert_field, int_of, float_of, bool_of,
}
use sight_stalker.Persistence.Config.{
  opt_string, string_items, header_fields, proxy_projection, fingerprint_projection,
  viewport_projection, launch_fields, context_fields, scheme_json, motion_json,
}
use sight_stalker.Persistence.Config.Rebuild.{
  get_or, as_object, as_list, required, opt_str, strings, headers, opt_color_scheme,
  opt_reduced_motion, rebuild_proxy, rebuild_fingerprint, rebuild_viewport, rebuild_launch,
  rebuild_context,
}
use sight_stalker.Persistence.Config.Kept.{
  kept_proxy, kept_fingerprint, kept_launch, kept_context, insert_header, sorted_headers,
}

insert_field-header_fields :
    (k v : Text) (hs : List (Text × Text))
    → insert_field k (string v) (header_fields hs) ≡ header_fields (insert_header k v hs)
unfolding insert_field header_fields insert_header
insert_field-header_fields k v [] = refl
insert_field-header_fields k v ((j, w) ∷ hs) = ground (arith, insert_field-header_fields k v hs)

sort_fields-header_fields :
    (hs : List (Text × Text)) → sort_fields (header_fields hs) ≡ header_fields (sorted_headers hs)
unfolding sort_fields sort_value header_fields sorted_headers
sort_fields-header_fields [] = refl
sort_fields-header_fields ((k, v) ∷ hs) =
    rw (sort_fields-header_fields hs) (insert_field-header_fields k v (sorted_headers hs))

module _ (json : JsonLibrary) where
  opt_str-opt_string : (o : Option Text) → opt_str json (sort_value (opt_string o)) ≡ o
  unfolding opt_str opt_string sort_value str_of
  opt_str-opt_string none = refl
  opt_str-opt_string (some t) = refl

  strings-string_items : (ts : List Text) → strings json (sort_items (string_items ts)) ≡ ts
  unfolding strings string_items sort_items sort_value str_of
  strings-string_items [] = refl
  strings-string_items (t ∷ ts) = ap (λ l. t ∷ l) (strings-string_items ts)

  rebuild_proxy-projection :
      (p : Option ProxyConfig) → rebuild_proxy json (sort_value (proxy_projection p)) ≡ kept_proxy p
  unfolding rebuild_proxy sort_value kept_proxy get_or text_eq text_le get_field insert_field str_of
  rebuild_proxy-projection none = refl
  rebuild_proxy-projection (some p) = simp (opt_str-opt_string)

  rebuild_viewport-projection :
      (v : Option ViewportConfig)
      → rebuild_viewport json (sort_value (viewport_projection v)) ≡ ok v
  unfolding rebuild_viewport sort_value get_or text_eq text_le get_field insert_field str_of
      required int_of float_of bool_of preset_text
  rebuild_viewport-projection none = refl
  rebuild_viewport-projection (some v) = rw (preset_of-text v.preset) refl

  headers-header_fields : (hs : List (Text × Text)) → headers json (header_fields hs) ≡ hs
  unfolding headers header_fields str_of
  headers-header_fields [] = refl
  headers-header_fields ((k, v) ∷ hs) = ap (λ l. (k, v) ∷ l) (headers-header_fields hs)

  rebuild_fingerprint-projection :
      (f : Option FingerprintConfig)
      → rebuild_fingerprint json (sort_value (fingerprint_projection f)) ≡ kept_fingerprint f
  unfolding rebuild_fingerprint sort_value kept_fingerprint get_or text_eq text_le get_field
      insert_field
  rebuild_fingerprint-projection none = refl
  rebuild_fingerprint-projection (some f) = simp (opt_str-opt_string)

  opt_color_scheme-json :
      (s : Option ColorScheme) → opt_color_scheme json (sort_value (scheme_json s)) ≡ s
  unfolding opt_color_scheme sort_value str_of text_eq color_scheme_text
  opt_color_scheme-json none = refl
  opt_color_scheme-json (some ColorScheme.light) = refl
  opt_color_scheme-json (some ColorScheme.dark) = refl
  opt_color_scheme-json (some ColorScheme.no_preference) = refl

  opt_reduced_motion-json :
      (m : Option ReducedMotion) → opt_reduced_motion json (sort_value (motion_json m)) ≡ m
  unfolding opt_reduced_motion sort_value str_of text_eq reduced_motion_text
  opt_reduced_motion-json none = refl
  opt_reduced_motion-json (some ReducedMotion.reduce) = refl
  opt_reduced_motion-json (some ReducedMotion.no_preference) = refl

  pub rebuild_launch-fields :
      (l : BrowserLaunchConfig)
      → rebuild_launch json (sort_fields (launch_fields l)) ≡ ok (kept_launch l)
  unfolding rebuild_launch launch_fields sort_fields sort_value kept_launch get_or text_eq text_le
      get_field insert_field str_of int_of bool_of as_list
  rebuild_launch-fields l =
      rw
        (
          engine_of-text l.engine_name,
          browser_mode_of-text l.mode,
          rebuild_proxy-projection l.proxy,
          rebuild_fingerprint-projection l.fingerprint,
          strings-string_items l.args,
        )
        refl

  pub rebuild_context-fields :
      (c : BrowserContextConfig)
      → rebuild_context json (sort_fields (context_fields c)) ≡ ok (kept_context c)
  unfolding rebuild_context context_fields sort_fields sort_value kept_context get_or text_eq
      text_le get_field insert_field str_of int_of bool_of as_list as_object
  rebuild_context-fields c =
      rw
        (
          rebuild_viewport-projection c.viewport,
          opt_color_scheme-json c.color_scheme,
          opt_reduced_motion-json c.reduced_motion,
          strings-string_items c.permissions,
          sort_fields-header_fields c.extra_http_headers,
          headers-header_fields (sorted_headers c.extra_http_headers),
          opt_str-opt_string c.locale,
          opt_str-opt_string c.timezone_id,
          opt_str-opt_string c.user_agent,
          opt_str-opt_string c.environment_profile_id,
        )
        refl
