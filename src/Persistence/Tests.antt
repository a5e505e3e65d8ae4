-- ===== src/Persistence/Tests.antt =====
-- persistence/ on one configuration.
use sight_stalker.Prelude.{◌≡◌, refl, true, false, [], ◌∷◌, none, some, codes, ok, ◌>>=◌, text_eq}
use sight_stalker.Models.Browser.{ViewportPreset}
use sight_stalker.Models.Json.{object, end}
use sight_stalker.Models.Records.{SessionConfig}
use sight_stalker.Security.Fixture.{plain_library}
use sight_stalker.Sessions.Manager.Fixture.{default_config}
use sight_stalker.Persistence.Fixture.{plain_json}
use sight_stalker.Persistence.Stored.{canonical_json, decode_json_object}
use sight_stalker.Persistence.Config.{persistable_session_config, config_fields}
use sight_stalker.Persistence.Config.Encodable.{has_finite_scale}
use sight_stalker.Persistence.Config.Kept.{stored_config}
use sight_stalker.Persistence.Config.Rebuild.{session_config_from_projection}
use sight_stalker.Persistence.Config.Roundtrip.{persistable_session_config-roundtrip}

-- A viewport, a proxy, a fingerprint and two headers that are not in order.
abbrev some_config : SessionConfig
some_config = record default_config {
  launch = record default_config.launch {
    proxy = some (record {
      server = codes "http://proxy.example";
      username = some (codes "u");
      password = none;
      bypass = none;
      profile_id = none;
    });
    fingerprint = some (record {
      profile_id = none;
      locale = some (codes "de-DE");
      timezone_id = none;
      user_agent = some (codes "agent");
      extra = end;
    });
    args = codes "--mute" ∷ [];
  };
  context = record default_config.context {
    viewport = some (record {
      width = 800;
      height = 600;
      device_scale_factor = codes "1.0";
      is_mobile = false;
      has_touch = true;
      preset = ViewportPreset.custom;
    });
    extra_http_headers = (codes "X-B", codes "2") ∷ (codes "X-A", codes "1") ∷ [];
  };
}

accepted_config :
    persistable_session_config plain_library some_config ≡ ok (config_fields some_config)
unfolding persistable_session_config text_eq
accepted_config = refl

persistable_session_config-roundtrip_example :
    (canonical_json plain_json (object (config_fields some_config))
      >>= decode_json_object plain_json
      >>= session_config_from_projection plain_json)
    ≡ ok (stored_config some_config)
unfolding has_finite_scale
persistable_session_config-roundtrip_example =
    persistable_session_config-roundtrip plain_json plain_library some_config
      (config_fields some_config) accepted_config refl
