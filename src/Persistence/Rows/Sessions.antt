-- ===== src/Persistence/Rows/Sessions.antt =====
-- A session that is stored and read back.
use sight_stalker.Prelude.{
  ◌≡◌, refl, sym, ap, ◌∙◌, Bool, true, false, [], Option, none, Text, codes, ok, raised, ◌==◌,
  text_eq, ◌>>=◌, bind-ok, ok_injective, if◌then◌else◌,
}
use mathlib.Core.Path.{subst}
use sight_stalker.Errors.{Exc}
use sight_stalker.Ids.{strip}
use sight_stalker.Models.Artifacts.{ArtifactRef}
use sight_stalker.Models.Identifiers.{
  session_prefix, profile_prefix, HealthStatus, unknown, healthy, degraded, unhealthy, matches_id,
}
use sight_stalker.Models.Json.{object}
use sight_stalker.Models.Literals.{health_status_text, health_status_of}
use sight_stalker.Models.Records.{SessionRecord}
use sight_stalker.Security.Redaction.{TextLibrary}
use sight_stalker.Persistence.Stored.{JsonLibrary, canonical_json, decode_json_object}
use sight_stalker.Persistence.Config.{persistable_session_config}
use sight_stalker.Persistence.Config.Encodable.{has_finite_scale}
use sight_stalker.Persistence.Config.Kept.{stored_config}
use sight_stalker.Persistence.Config.Rebuild.{session_config_from_projection}
use sight_stalker.Persistence.Config.Roundtrip.{persistable_session_config-roundtrip}
use sight_stalker.Persistence.Rows.{
  Timestamped, SessionValues, aware, to_utc, from_db_datetime, require, valid_id,
}
use sight_stalker.Persistence.Rows.Read.{session_from_row}
use sight_stalker.Persistence.Rows.Write.{session_to_row_values, stripped_name, ref_id}

health_status_of-text : (x : HealthStatus) → health_status_of (health_status_text x) ≡ ok x
unfolding health_status_of health_status_text text_eq
health_status_of-text unknown = refl
health_status_of-text healthy = refl
health_status_of-text degraded = refl
health_status_of-text unhealthy = refl

-- An identifier that is accepted for the row is accepted when the row is read.
pub require-valid :
    (prefix value what stored : Text)
    → require prefix value what ≡ ok stored
    → stored ≡ value × valid_id prefix value ≡ ok value
unfolding require valid_id
require-valid prefix value what stored h = valid_if (matches_id prefix value) value stored _ _ h
  where
    valid_if :
        (b : Bool) (a s : Text) (e e' : Exc)
        → (if b then ok a else raised e) ≡ ok s
        → s ≡ a × (if b then ok a else raised e') ≡ ok a
    valid_if true a s e e' h = (cc, refl)
    valid_if false a s e e' h = (cc, cc)

name-ok :
    (message name stored : Text) → stripped_name message name ≡ ok stored → stored ≡ strip name
unfolding stripped_name
name-ok message name stored h = name_if (strip name == []) (strip name) stored _ h
  where
    name_if : (b : Bool) (a s : Text) (e : Exc) → (if b then raised e else ok a) ≡ ok s → s ≡ a
    name_if true a s e h = cc
    name_if false a s e h = cc

module _ (lib : TextLibrary) (json : JsonLibrary) where
  -- The row of a new session.
  abbrev pub row_of : SessionRecord → SessionValues json → Timestamped (SessionValues json)
  row_of session v = record { created_at = aware session.created_at; updated_at = none; values = v }

  -- The session as it is read from a new row, with these references.
  abbrev pub new_session : SessionRecord → Option ArtifactRef → Option ArtifactRef → SessionRecord
  new_session session initial final = record session {
    updated_at = none;
    name = strip session.name;
    config = stored_config session.config;
    latest_initial_state = initial;
    latest_final_state = final;
  }

  read_row :
      (session : SessionRecord) (initial final : Option ArtifactRef)
      (session_id profile_id name : Text) (config_json : json.Stored)
      → session_id ≡ session.session_id
      → profile_id ≡ session.profile_id
      → name ≡ strip session.name
      → valid_id session_prefix session.session_id ≡ ok session.session_id
      → valid_id profile_prefix session.profile_id ≡ ok session.profile_id
      → (decode_json_object json config_json >>= session_config_from_projection json)
        ≡ ok (stored_config session.config)
      → session_from_row json
          (row_of session (record {
            session_id = session_id;
            name = name;
            profile_id = profile_id;
            config_json = config_json;
            latest_initial_artifact_id = ref_id session.latest_initial_state;
            latest_final_artifact_id = ref_id session.latest_final_state;
            health_status = health_status_text session.health_status;
            archived = session.archived;
          }))
          initial
          final
        ≡ ok (new_session session initial final)
  unfolding session_from_row to_utc from_db_datetime
  read_row session initial final session_id profile_id name config_json e1 e2 e3 v1 v2 read =
      let (projection, decoded, rebuilt) =
        bind-ok (decode_json_object json config_json) (session_config_from_projection json)
          (stored_config session.config) read in
      rw (e1, e2, e3, decoded, rebuilt, v1, v2, health_status_of-text session.health_status) refl

  -- A session that `session_to_row_values` accepts, whose scale factor is finite, is read from its new row the same, but
  -- for the time of its update, its name, its configuration and the references, and the row has the identifiers of the
  -- session's references.
  pub session_from_row-new :
      (session : SessionRecord) (v : SessionValues json) (initial final : Option ArtifactRef)
      → has_finite_scale json session.config ≡ true
      → session_to_row_values lib json session ≡ ok v
      → session_from_row json (row_of session v) initial final
          ≡ ok (new_session session initial final)
        × v.latest_initial_artifact_id ≡ ref_id session.latest_initial_state
        × v.latest_final_artifact_id ≡ ref_id session.latest_final_state
  unfolding session_to_row_values
  session_from_row-new session v initial final finite h =
      let (session_id, e1, h1) =
        bind-ok (require session_prefix session.session_id (codes "SessionId")) _ v h in
      let (profile_id, e2, h2) =
        bind-ok (require profile_prefix session.profile_id (codes "ProfileId")) _ v h1 in
      let (name, e3, h3) =
        bind-ok (stripped_name (codes "session name must not be empty") session.name) _ v h2 in
      let (projection, e4, h4) = bind-ok (persistable_session_config lib session.config) _ v h3 in
      let (config_json, e5, h5) = bind-ok (canonical_json json (object projection)) _ v h4 in
      let same = ok_injective _ v h5 in
      let (same1, valid1) =
        require-valid session_prefix session.session_id (codes "SessionId") session_id e1 in
      let (same2, valid2) =
        require-valid profile_prefix session.profile_id (codes "ProfileId") profile_id e2 in
      let read =
        ap (λ o. o >>= decode_json_object json >>= session_config_from_projection json) (sym e5)
        ∙ persistable_session_config-roundtrip json lib session.config projection e4 finite in
      (
        subst
            (λ u.
              session_from_row json (row_of session u) initial final
              ≡ ok (new_session session initial final))
            same
            (read_row session initial final session_id profile_id name config_json same1 same2
              (name-ok (codes "session name must not be empty") session.name name e3) valid1 valid2
              read),
        sym (ap (λ u. u.latest_initial_artifact_id) same),
        sym (ap (λ u. u.latest_final_artifact_id) same),
      )
