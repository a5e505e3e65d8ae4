-- ===== src/Persistence/Config/Kept.antt =====
-- What the projection keeps of a configuration.
use sight_stalker.Prelude.{
  ◌≡◌, refl, ap, sym, Bool, true, List, [], ◌∷◌, Option, none, some, Text, arith, text_eq, text_le,
  not, ◌&&◌, is_some, if◌then◌else◌,
}
use sight_stalker.Models.Browser.{
  ProxyConfig, FingerprintConfig, BrowserLaunchConfig, BrowserContextConfig,
}
use sight_stalker.Models.Json.{Fields, end, field}
use sight_stalker.Models.Records.{SessionConfig}
use sight_stalker.Persistence.Config.{is_nonempty, has_password, has_extra, has_fields}
use sight_stalker.Persistence.Config.Accepts.{passes_checks}
use sight_stalker.Security.Redaction.{TextLibrary}

unfoldable pub kept_proxy : Option ProxyConfig → Option ProxyConfig
kept_proxy none = none
kept_proxy (some p) = some (record p { password = none })

unfoldable pub kept_fingerprint : Option FingerprintConfig → Option FingerprintConfig
kept_fingerprint none = none
kept_fingerprint (some f) = some (record f { user_agent = none; extra = end })

-- The order in which `sort_keys=True` leaves the headers.
unfoldable pub insert_header : Text → Text → List (Text × Text) → List (Text × Text)
unfolding text_le
insert_header k v [] = (k, v) ∷ []
insert_header k v ((j, w) ∷ hs) =
    let rest = insert_header k v hs in if text_le k j then (k, v) ∷ (j, w) ∷ hs else (j, w) ∷ rest

unfoldable pub sorted_headers : List (Text × Text) → List (Text × Text)
unfolding insert_header
sorted_headers [] = []
sorted_headers ((k, v) ∷ hs) = insert_header k v (sorted_headers hs)

-- What the projection keeps of an accepted configuration.
unfoldable pub kept_launch : BrowserLaunchConfig → BrowserLaunchConfig
kept_launch l = record l {
  executable_path = none;
  user_data_dir = none;
  env = [];
  proxy = kept_proxy l.proxy;
  fingerprint = kept_fingerprint l.fingerprint;
}

unfoldable pub kept_context : BrowserContextConfig → BrowserContextConfig
kept_context c = record c {
  extra_http_headers = sorted_headers c.extra_http_headers;
  record_har_path = none;
  record_video_dir = none;
}

unfoldable pub kept_config : SessionConfig → SessionConfig
kept_config c = record c { launch = kept_launch c.launch; context = kept_context c.context }

-- The configuration that comes back: the header fields stand in the order of their names, and a fingerprint
-- has lost its `user_agent`, which the projection leaves out.
stored_fingerprint : Option FingerprintConfig → Option FingerprintConfig
stored_fingerprint none = none
stored_fingerprint (some f) = some (record f { user_agent = none })

unfoldable pub stored_config : SessionConfig → SessionConfig
unfolding stored_fingerprint sorted_headers
stored_config c = record c {
  launch = record c.launch { fingerprint = stored_fingerprint c.launch.fingerprint };
  context = record c.context { extra_http_headers = sorted_headers c.context.extra_http_headers };
}

is_nonempty-nil : {A : Type 0} (xs : List A) → not (is_nonempty xs) ≡ true → xs ≡ []
is_nonempty-nil [] h = refl
is_nonempty-nil (x ∷ xs) h = ground arith

is_some-none : {A : Type 0} (o : Option A) → not (is_some o) ≡ true → o ≡ none
is_some-none none h = refl
is_some-none (some a) h = ground arith

has_fields-end : (d : Fields) → not (has_fields d) ≡ true → d ≡ end
has_fields-end end h = refl
has_fields-end (field k v d) h = ground arith

kept_proxy-stored : (p : Option ProxyConfig) → not (has_password p) ≡ true → kept_proxy p ≡ p
unfolding kept_proxy
kept_proxy-stored none h = refl
kept_proxy-stored (some p) h =
    ap (λ w. some (record p { password = w })) (sym (is_some-none p.password h))

kept_fingerprint-stored :
    (f : Option FingerprintConfig)
    → not (has_extra f) ≡ true
    → kept_fingerprint f ≡ stored_fingerprint f
unfolding kept_fingerprint stored_fingerprint
kept_fingerprint-stored none h = refl
kept_fingerprint-stored (some f) h =
    ap (λ d. some (record f { user_agent = none; extra = d })) (sym (has_fields-end f.extra h))

conjuncts :
    (a b c d e f g h : Bool)
    → (a && (b && (c && (d && (e && (f && (g && h))))))) ≡ true
    → a ≡ true × b ≡ true × c ≡ true × d ≡ true × e ≡ true × g ≡ true × h ≡ true
conjuncts a b c d e f g h r = ground arith

module _ (lib : TextLibrary) where
  pub kept_config-stored_config :
      (c : SessionConfig) → passes_checks lib c ≡ true → kept_config c ≡ stored_config c
  unfolding kept_config kept_launch kept_context stored_config passes_checks sorted_headers
  kept_config-stored_config c h =
      let (env, exe, dir, proxy, fingerprint, har, video) =
        conjuncts (not (is_nonempty c.launch.env)) (not (is_some c.launch.executable_path))
          (not (is_some c.launch.user_data_dir)) (not (has_password c.launch.proxy))
          (not (has_extra c.launch.fingerprint)) _ (not (is_some c.context.record_har_path))
          (not (is_some c.context.record_video_dir)) h in
      rw
        (
          is_nonempty-nil c.launch.env env,
          is_some-none c.launch.executable_path exe,
          is_some-none c.launch.user_data_dir dir,
          kept_proxy-stored c.launch.proxy proxy,
          kept_fingerprint-stored c.launch.fingerprint fingerprint,
          is_some-none c.context.record_har_path har,
          is_some-none c.context.record_video_dir video,
        )
        refl
