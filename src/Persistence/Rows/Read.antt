-- ===== src/Persistence/Rows/Read.antt =====
-- persistence/serialization.py: the `*_from_row` functions. Of pydantic's checks, those of identifiers, of the
-- literals and of the digest are made.
use sight_stalker.Prelude.{Option, none, Text, List, [], ◌∷◌, codes, Outcome, ok, ◌>>=◌}
use sight_stalker.Errors.{Exc}
use sight_stalker.Models.Artifacts.{ArtifactRef}
use sight_stalker.Models.Identifiers.{
  HashAlgorithm, session_prefix, run_prefix, profile_prefix, context_prefix,
}
use sight_stalker.Models.Literals.{artifact_type_of, health_status_of, run_status_of, literal_of}
use sight_stalker.Models.Paths.{FilePath}
use sight_stalker.Models.Records.{
  ProfileRecord, SessionRecord, RunRecord, BrowserContextRecord, SessionHealthRecord,
}
use sight_stalker.Artifacts.Manager.{make_ref}
use sight_stalker.Persistence.Stored.{JsonLibrary, decode_json_object}
use sight_stalker.Persistence.Config.Rebuild.{session_config_from_projection}
use sight_stalker.Persistence.Rows.{
  Timestamped, ProfileValues, SessionValues, RunValues, ContextValues, ArtifactValues, HealthValues,
  to_utc, from_db_datetime, valid_id, valid_opt,
}
use sight_stalker.Persistence.Rows.Paths.{posix_path, profile_dir_from_relative}

unfoldable pub hash_of : Text → Outcome Exc HashAlgorithm
unfolding literal_of
hash_of = literal_of ((codes "sha256", HashAlgorithm.sha256) ∷ [])

unfoldable pub artifact_ref_from_row : Timestamped ArtifactValues → Outcome Exc ArtifactRef
unfolding artifact_type_of hash_of posix_path make_ref
artifact_ref_from_row row = do
  artifact_type ← artifact_type_of row.values.artifact_type
  hash_algorithm ← hash_of row.values.hash_algorithm
  make_ref (record {
    artifact_id = row.values.artifact_id;
    artifact_type = artifact_type;
    relative_path = posix_path row.values.relative_path;
    sha256 = row.values.sha256;
    size_bytes = row.values.size_bytes;
    mime_type = row.values.mime_type;
    hash_algorithm = hash_algorithm;
  })

unfoldable pub profile_from_row :
    (FilePath → FilePath) → FilePath → Timestamped ProfileValues → Outcome Exc ProfileRecord
unfolding valid_id health_status_of profile_dir_from_relative to_utc from_db_datetime
profile_from_row resolve data_dir row = do
  profile_id ← valid_id profile_prefix row.values.profile_id
  health_status ← health_status_of row.values.health_status
  ok (record {
    created_at = to_utc row.created_at;
    updated_at = from_db_datetime row.updated_at;
    profile_id = profile_id;
    name = row.values.name;
    profile_dir = profile_dir_from_relative resolve data_dir row.values.profile_dir;
    fingerprint_profile_id = row.values.fingerprint_profile_id;
    proxy_profile_id = row.values.proxy_profile_id;
    active_lock_path = none;
    health_status = health_status;
    archived = row.values.archived;
  })

unfoldable pub context_from_row :
    Timestamped ContextValues
    → Option ArtifactRef
    → Option ArtifactRef
    → Outcome Exc BrowserContextRecord
unfolding valid_id to_utc from_db_datetime
context_from_row row initial final = do
  context_id ← valid_id context_prefix row.values.context_id
  run_id ← valid_id run_prefix row.values.run_id
  session_id ← valid_id session_prefix row.values.session_id
  ok (record {
    created_at = to_utc row.created_at;
    updated_at = from_db_datetime row.updated_at;
    context_id = context_id;
    run_id = run_id;
    session_id = session_id;
    initial_storage_state = initial;
    final_storage_state = final;
    closed_at = from_db_datetime row.values.closed_at;
  })

unfoldable pub health_from_row : Timestamped HealthValues → Outcome Exc SessionHealthRecord
unfolding valid_id valid_opt health_status_of to_utc from_db_datetime
health_from_row row = do
  session_id ← valid_id session_prefix row.values.session_id
  status ← health_status_of row.values.status
  last_successful_run_id ← valid_opt run_prefix row.values.last_successful_run_id
  last_failed_run_id ← valid_opt run_prefix row.values.last_failed_run_id
  ok (record {
    created_at = to_utc row.created_at;
    updated_at = from_db_datetime row.updated_at;
    session_id = session_id;
    status = status;
    reason = row.values.reason;
    last_successful_run_id = last_successful_run_id;
    last_failed_run_id = last_failed_run_id;
  })

module _ (json : JsonLibrary) where
  unfoldable pub session_from_row :
      Timestamped (SessionValues json)
      → Option ArtifactRef
      → Option ArtifactRef
      → Outcome Exc SessionRecord
  unfolding decode_json_object session_config_from_projection valid_id health_status_of to_utc
      from_db_datetime
  session_from_row row latest_initial latest_final = do
    projection ← decode_json_object json row.values.config_json
    config ← session_config_from_projection json projection
    session_id ← valid_id session_prefix row.values.session_id
    profile_id ← valid_id profile_prefix row.values.profile_id
    health_status ← health_status_of row.values.health_status
    ok (record {
      created_at = to_utc row.created_at;
      updated_at = from_db_datetime row.updated_at;
      session_id = session_id;
      name = row.values.name;
      profile_id = profile_id;
      config = config;
      latest_initial_state = latest_initial;
      latest_final_state = latest_final;
      health_status = health_status;
      archived = row.values.archived;
    })

  unfoldable pub run_from_row :
      Timestamped (RunValues json) → List ArtifactRef → Outcome Exc RunRecord
  unfolding decode_json_object valid_id run_status_of to_utc from_db_datetime
  run_from_row row artifacts = do
    metadata ← decode_json_object json row.values.metadata_json
    run_id ← valid_id run_prefix row.values.run_id
    session_id ← valid_id session_prefix row.values.session_id
    status ← run_status_of row.values.status
    ok (record {
      created_at = to_utc row.created_at;
      updated_at = from_db_datetime row.updated_at;
      run_id = run_id;
      session_id = session_id;
      status = status;
      started_at = from_db_datetime row.values.started_at;
      completed_at = from_db_datetime row.values.completed_at;
      start_url = row.values.start_url;
      error_type = row.values.error_type;
      error_message_redacted = row.values.error_message_redacted;
      artifacts = artifacts;
      metadata = metadata;
    })
