-- ===== src/Persistence/Rows/Write.antt =====
-- persistence/serialization.py: the `*_to_row_values` functions.
use sight_stalker.Prelude.{
  ℕ, Bool, true, false, ◌||◌, [], ◌∷◌, Option, none, some, Text, codes, Outcome, ok, raised, ◌==◌,
  text_eq, has_char, if◌then◌else◌, ◌>>=◌,
}
use sight_stalker.Errors.{Exc}
use sight_stalker.Ids.{strip}
use sight_stalker.Models.Artifacts.{ArtifactRef}
use sight_stalker.Models.Identifiers.{
  HashAlgorithm, session_prefix, run_prefix, profile_prefix, context_prefix, artifact_prefix,
}
use sight_stalker.Models.Json.{object}
use sight_stalker.Models.Literals.{artifact_type_text, health_status_text, run_status_text}
use sight_stalker.Models.Paths.{FilePath}
use sight_stalker.Models.Records.{
  ProfileRecord, SessionRecord, RunRecord, BrowserContextRecord, SessionHealthRecord,
}
use sight_stalker.Security.Redaction.{TextLibrary, redact_mapping, redact_string}
use sight_stalker.Artifacts.Manager.{is_valid_ref}
use sight_stalker.Persistence.Stored.{JsonLibrary, canonical_json, integrity_error, security_error}
use sight_stalker.Persistence.Config.{persistable_session_config}
use sight_stalker.Persistence.Rows.{
  ProfileValues, SessionValues, RunValues, ContextValues, ArtifactValues, HealthValues, to_db,
  require, require_opt,
}
use sight_stalker.Persistence.Rows.Paths.{assert_safe_relative, profile_dir_to_relative}

unfoldable pub hash_text : HashAlgorithm → Text
hash_text HashAlgorithm.sha256 = codes "sha256"

-- `ref.artifact_id if ref is not None else None`
unfoldable pub ref_id : Option ArtifactRef → Option Text
ref_id none = none
ref_id (some ref) = some ref.artifact_id

validated_ref : ArtifactRef → Outcome Exc ArtifactRef
unfolding is_valid_ref
validated_ref ref =
    if is_valid_ref ref then ok ref else raised (integrity_error (codes "ArtifactRef is malformed"))

unfoldable pub artifact_ref_to_row_values :
    ArtifactRef → Option Text → Option Text → Option ℕ → Outcome Exc ArtifactValues
unfolding validated_ref assert_safe_relative require require_opt artifact_type_text hash_text
artifact_ref_to_row_values ref given_session given_run run_order = do
  validated ← validated_ref ref
  relative_text ← assert_safe_relative validated.relative_path
  artifact_id ← require artifact_prefix validated.artifact_id (codes "ArtifactId")
  session_id ← require_opt session_prefix given_session (codes "SessionId")
  run_id ← require_opt run_prefix given_run (codes "RunId")
  ok (record {
    artifact_id = artifact_id;
    artifact_type = artifact_type_text validated.artifact_type;
    relative_path = relative_text;
    sha256 = validated.sha256;
    size_bytes = validated.size_bytes;
    mime_type = validated.mime_type;
    hash_algorithm = hash_text validated.hash_algorithm;
    session_id = session_id;
    run_id = run_id;
    run_order = run_order;
  })

-- `name.strip()`, which must not be empty
unfoldable pub stripped_name : Text → Text → Outcome Exc Text
unfolding strip text_eq
stripped_name message name =
    if strip name == [] then raised (integrity_error message) else ok (strip name)

unfoldable pub profile_to_row_values :
    (FilePath → FilePath) → FilePath → ProfileRecord → Outcome Exc ProfileValues
unfolding require stripped_name profile_dir_to_relative health_status_text
profile_to_row_values resolve data_dir profile = do
  profile_id ← require profile_prefix profile.profile_id (codes "ProfileId")
  name ← stripped_name (codes "profile name must not be empty") profile.name
  profile_dir ← profile_dir_to_relative resolve data_dir profile.profile_dir
  ok (record {
    profile_id = profile_id;
    name = name;
    profile_dir = profile_dir;
    fingerprint_profile_id = profile.fingerprint_profile_id;
    proxy_profile_id = profile.proxy_profile_id;
    health_status = health_status_text profile.health_status;
    archived = profile.archived;
  })

-- What `urlsplit` finds: `username`, `password` and `netloc`.
pub record UrlParts : Type 0 where
  pub username : Option Text
  pub password : Option Text
  pub netloc : Text

-- Whether a text that may be `None` counts as true.
unfoldable pub is_given : Option Text → Bool
is_given none = false
is_given (some []) = false
is_given (some (c ∷ text)) = true

unfoldable pub has_credentials : UrlParts → Bool
unfolding is_given has_char
has_credentials parts =
    is_given parts.username || (is_given parts.password || has_char b'@' parts.netloc)

unfoldable pub no_credentials : Text → Option UrlParts → Outcome Exc (Option Text)
unfolding has_credentials
no_credentials url none = raised (integrity_error (codes "start_url is malformed"))
no_credentials url (some parts) =
    if has_credentials parts
    then raised (security_error (codes "start_url must not contain embedded credentials"))
    else ok (some url)

unfoldable pub reject_url_credentials :
    (Text → Option UrlParts) → Option Text → Outcome Exc (Option Text)
unfolding no_credentials
reject_url_credentials urlsplit none = ok none
reject_url_credentials urlsplit (some url) = no_credentials url (urlsplit url)

module _ (lib : TextLibrary) where
  redact_opt : Option Text → Option Text
  unfolding redact_string
  redact_opt none = none
  redact_opt (some text) = some (redact_string lib text)

  unfoldable pub health_to_row_values : SessionHealthRecord → Outcome Exc HealthValues
  unfolding require health_status_text redact_opt
  health_to_row_values health = do
    session_id ← require session_prefix health.session_id (codes "SessionId")
    ok (record {
      session_id = session_id;
      status = health_status_text health.status;
      reason = redact_opt health.reason;
      last_successful_run_id = health.last_successful_run_id;
      last_failed_run_id = health.last_failed_run_id;
    })

  module _ (json : JsonLibrary) where
    unfoldable pub session_to_row_values : SessionRecord → Outcome Exc (SessionValues json)
    unfolding require stripped_name persistable_session_config canonical_json ref_id
        health_status_text
    session_to_row_values session = do
      session_id ← require session_prefix session.session_id (codes "SessionId")
      profile_id ← require profile_prefix session.profile_id (codes "ProfileId")
      name ← stripped_name (codes "session name must not be empty") session.name
      projection ← persistable_session_config lib session.config
      config_json ← canonical_json json (object projection)
      ok (record {
        session_id = session_id;
        name = name;
        profile_id = profile_id;
        config_json = config_json;
        latest_initial_artifact_id = ref_id session.latest_initial_state;
        latest_final_artifact_id = ref_id session.latest_final_state;
        health_status = health_status_text session.health_status;
        archived = session.archived;
      })

    unfoldable pub run_to_row_values :
        (Text → Option UrlParts) → RunRecord → Outcome Exc (RunValues json)
    unfolding require redact_mapping redact_opt to_db reject_url_credentials canonical_json
        run_status_text
    run_to_row_values urlsplit run = do
      run_id ← require run_prefix run.run_id (codes "RunId")
      session_id ← require session_prefix run.session_id (codes "SessionId")
      start_url ← reject_url_credentials urlsplit run.start_url
      metadata_json ← canonical_json json (object (redact_mapping lib run.metadata))
      ok (record {
        run_id = run_id;
        session_id = session_id;
        status = run_status_text run.status;
        started_at = to_db run.started_at;
        completed_at = to_db run.completed_at;
        start_url = start_url;
        error_type = run.error_type;
        error_message_redacted = redact_opt run.error_message_redacted;
        metadata_json = metadata_json;
      })

unfoldable pub context_to_row_values : BrowserContextRecord → Outcome Exc ContextValues
unfolding require ref_id to_db
context_to_row_values context = do
  context_id ← require context_prefix context.context_id (codes "ContextId")
  run_id ← require run_prefix context.run_id (codes "RunId")
  session_id ← require session_prefix context.session_id (codes "SessionId")
  ok (record {
    context_id = context_id;
    run_id = run_id;
    session_id = session_id;
    initial_storage_artifact_id = ref_id context.initial_storage_state;
    final_storage_artifact_id = ref_id context.final_storage_state;
    closed_at = to_db context.closed_at;
  })
