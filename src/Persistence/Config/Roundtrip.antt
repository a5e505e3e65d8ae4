-- ===== src/Persistence/Config/Roundtrip.antt =====
-- A projection that is stored as JSON text and read again.
use sight_stalker.Prelude.{◌≡◌, refl, true, inl, inr, ok, ◌>>=◌, text_eq, text_le}
use sight_stalker.Models.Json.{Fields, object, get_field}
use sight_stalker.Models.Records.{SessionConfig}
use sight_stalker.Security.Redaction.{TextLibrary}
use sight_stalker.Persistence.Stored.{
  JsonLibrary, canonical_json, decode_json_object, decode-canonical, sort_value, sort_fields,
  insert_field, bool_of,
}
use sight_stalker.Persistence.Config.{config_fields, persistable_session_config}
use sight_stalker.Persistence.Config.Encodable.{has_finite_scale, config_fields-encodable}
use sight_stalker.Persistence.Config.Accepts.{persistable_session_config-cases}
use sight_stalker.Persistence.Config.Rebuild.{get_or, as_object, session_config_from_projection}
use sight_stalker.Persistence.Config.Kept.{kept_config, stored_config, kept_config-stored_config}
use sight_stalker.Persistence.Config.Reads.{rebuild_launch-fields, rebuild_context-fields}

module _ (json : JsonLibrary) where
  from_projection-fields :
      (c : SessionConfig)
      → session_config_from_projection json (sort_fields (config_fields c)) ≡ ok (kept_config c)
  unfolding session_config_from_projection config_fields sort_fields sort_value get_or as_object
      text_eq text_le get_field insert_field bool_of kept_config
  from_projection-fields c =
      rw (rebuild_launch-fields json c.launch, rebuild_context-fields json c.context) refl

  read_back :
      (c : SessionConfig)
      → has_finite_scale json c ≡ true
      → (canonical_json json (object (config_fields c))
          >>= decode_json_object json
          >>= session_config_from_projection json)
        ≡ ok (kept_config c)
  read_back c h =
      rw (decode-canonical json (config_fields c) (config_fields-encodable json c h))
        (from_projection-fields c)

  -- A configuration that is accepted for storage, with a finite scale factor, is written as JSON text and comes back
  -- the same, but for the order of its headers, which are sorted, and the `user_agent` of its fingerprint, which is lost.
  pub persistable_session_config-roundtrip :
      (lib : TextLibrary) (c : SessionConfig) (d : Fields)
      → persistable_session_config lib c ≡ ok d
      → has_finite_scale json c ≡ true
      → (canonical_json json (object d)
          >>= decode_json_object json
          >>= session_config_from_projection json)
        ≡ ok (stored_config c)
  persistable_session_config-roundtrip lib c d accepted finite =
      elim (persistable_session_config-cases lib c) [
        | inl (p, q) ↦ cc (read_back c finite, kept_config-stored_config lib c p)
        | inr (p, (text, q)) ↦ cc
      ]
