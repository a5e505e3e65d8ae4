-- ===== src/Persistence/Repositories/Tests.antt =====
-- persistence/ on one session and one run.
use sight_stalker.Prelude.{◌≡◌, refl, true, false, [], none, some, Option, Text, codes, ok, text_eq}
use sight_stalker.Models.Identifiers.{unknown, failed}
use sight_stalker.Models.Json.{Fields, object, end, field, secret, string}
use sight_stalker.Models.Records.{SessionRecord, RunRecord}
use sight_stalker.Security.Fixture.{plain_library}
use sight_stalker.Security.Redaction.{is_sensitive_key, is_sensitive_header}
use sight_stalker.Security.Mapping.{AreFieldsRedacted}
use sight_stalker.Sessions.Manager.Fixture.{default_config}
use sight_stalker.Persistence.Fixture.{plain_json}
use sight_stalker.Persistence.Stored.{decode_json_object, sort_value, is_encodable}
use sight_stalker.Persistence.Config.{config_fields}
use sight_stalker.Persistence.Config.Encodable.{has_finite_scale}
use sight_stalker.Persistence.Config.Kept.{stored_config}
use sight_stalker.Persistence.Rows.{SessionValues, RunValues, aware}
use sight_stalker.Persistence.Rows.Metadata.{HasNoCredentials, run_to_row_values-redacts}
use sight_stalker.Persistence.Rows.Sessions.{new_session}
use sight_stalker.Persistence.Rows.Write.{
  UrlParts, ref_id, session_to_row_values, run_to_row_values,
}
use sight_stalker.Persistence.Repositories.Fixture.{
  one_session, one_session_laws, find_row, SessionRow,
}
use sight_stalker.Persistence.Repositories.Sessions.{get, create}
use sight_stalker.Persistence.Repositories.Sessions.Created.{create-get}
use sight_stalker.Persistence.Repositories.Artifacts.{ref_for}
use sight_stalker.Models.Artifacts.{ArtifactRef}
use sight_stalker.Persistence.Repositories.Sessions.Stored.{
  archiving, written_id, run_write, run_write-get,
}

abbrev a_session : SessionRecord
a_session = record {
  created_at = 5;
  updated_at = none;
  session_id = codes "sess_00000000";
  name = codes " work ";
  profile_id = codes "prof_00000000";
  config = default_config;
  latest_initial_state = none;
  latest_final_state = none;
  health_status = unknown;
  archived = false;
}

abbrev a_row : SessionValues plain_json
a_row = record {
  session_id = codes "sess_00000000";
  name = codes "work";
  profile_id = codes "prof_00000000";
  config_json = sort_value (object (config_fields default_config));
  latest_initial_artifact_id = none;
  latest_final_artifact_id = none;
  health_status = codes "unknown";
  archived = false;
}

stored_session : session_to_row_values plain_library plain_json a_session ≡ ok a_row
unfolding session_to_row_values text_eq is_encodable
stored_session = refl

abbrev created_session : SessionRecord
created_session = record a_session { name = codes "work"; config = stored_config default_config }

created : create plain_json one_session plain_library a_session none ≡ (
  ok created_session,
  some (record { created_at = aware 5; updated_at = none; values = a_row }),
)
unfolding create sort_value config_fields text_eq is_encodable stored_config
created = refl

create-get_example :
    get plain_json one_session
        (codes "sess_00000000")
        (some (record { created_at = aware 5; updated_at = none; values = a_row }))
      ≡ ok (some created_session)
    × (initial : Option ArtifactRef) × (final : Option ArtifactRef) × ref_for plain_json one_session
          none
          (some (record { created_at = aware 5; updated_at = none; values = a_row }))
        ≡ ok initial
    × ref_for plain_json one_session none
        (some (record { created_at = aware 5; updated_at = none; values = a_row }))
      ≡ ok final
    × created_session ≡ new_session plain_library plain_json a_session initial final
unfolding has_finite_scale ref_id
create-get_example =
    create-get plain_json one_session plain_library a_session created_session none
      (some (record { created_at = aware 5; updated_at = none; values = a_row })) one_session_laws
      refl created

abbrev archived_row : SessionRow
archived_row = record {
  created_at = aware 5;
  updated_at = some (aware 9);
  values = record a_row { archived = true };
}

abbrev archived_session : SessionRecord
archived_session = record a_session { updated_at = some 9; name = codes "work"; archived = true }

archived_run :
    run_write plain_json one_session one_session_laws plain_library
      (archiving 9 (codes "sess_00000000"))
      (some (record { created_at = aware 5; updated_at = none; values = a_row }))
    ≡ (ok archived_session, some archived_row)
unfolding run_write find_row sort_value config_fields text_eq
archived_run = refl

run_write-get_example :
    get plain_json one_session (codes "sess_00000000") (some archived_row)
    ≡ ok (some archived_session)
unfolding written_id
run_write-get_example =
    run_write-get plain_json one_session one_session_laws plain_library
      (archiving 9 (codes "sess_00000000")) archived_session
      (some (record { created_at = aware 5; updated_at = none; values = a_row }))
      (some archived_row) archived_run

-- Every URL has a host and nothing more.
abbrev plain_split : Text → Option UrlParts
plain_split url = some (record { username = none; password = none; netloc = codes "example.org" })

abbrev a_run : RunRecord
a_run = record {
  created_at = 5;
  updated_at = none;
  run_id = codes "run_00000000";
  session_id = codes "sess_00000000";
  status = failed;
  started_at = some 6;
  completed_at = none;
  start_url = some (codes "https://example.org/");
  error_type = none;
  error_message_redacted = none;
  artifacts = [];
  metadata =
      field (codes "token") (secret (codes "hidden"))
        (field (codes "note") (string (codes "x")) end);
}

abbrev a_run_row : RunValues plain_json
a_run_row = record {
  run_id = codes "run_00000000";
  session_id = codes "sess_00000000";
  status = codes "failed";
  started_at = some (aware 6);
  completed_at = none;
  start_url = some (codes "https://example.org/");
  error_type = none;
  error_message_redacted = none;
  metadata_json = object (
      field (codes "note") (string (codes "x"))
        (field (codes "token") (string (codes "<redacted>")) end));
}

stored_run : run_to_row_values plain_library plain_json plain_split a_run ≡ ok a_run_row
unfolding run_to_row_values text_eq sort_value is_encodable is_sensitive_key is_sensitive_header
stored_run = refl

run_to_row_values-redacts_example :
    HasNoCredentials plain_library plain_split a_run_row.start_url
    × ((d : Fields) × decode_json_object plain_json a_run_row.metadata_json ≡ ok d
        × AreFieldsRedacted plain_library d)
run_to_row_values-redacts_example =
    run_to_row_values-redacts plain_library plain_json plain_split a_run a_run_row stored_run
