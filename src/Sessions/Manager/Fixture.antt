-- ===== src/Sessions/Manager/Fixture.antt =====
-- A concrete set of collaborators and a concrete run, for the tests. The world counts clock readings.
use sight_stalker.Prelude.{
  ℕ, suc, Bool, true, false, [], ◌∷◌, none, some, Text, codes, ok, raised, if◌then◌else◌,
}
use sight_stalker.Errors.{Exc, plain, other_exception}
use sight_stalker.Models.Artifacts.{ArtifactRef}
use sight_stalker.Models.Browser.{BrowserContextConfig, BrowserLaunchConfig, BrowserState}
use sight_stalker.Models.Identifiers.{
  camoufox, headless, unknown, storage_state_initial, storage_state_final, ArtifactType, sha256,
}
use sight_stalker.Models.Json.{nil, end}
use sight_stalker.Models.Records.{ProfileRecord, RunRequest, SessionConfig, SessionRecord}
use sight_stalker.Sessions.Collaborators.{Collaborators}
use sight_stalker.Sessions.Manager.State.{Opened, Managed, event, acquire, launch, new_context}

abbrev pub some_ref : ArtifactType → ArtifactRef
some_ref kind = record {
  artifact_id = codes "art_init_00000000";
  artifact_type = kind;
  relative_path = record { absolute = false; parts = codes "profiles" ∷ codes "state.json" ∷ [] };
  sha256 = codes "00";
  size_bytes = 2;
  mime_type = none;
  hash_algorithm = sha256;
}

abbrev pub empty_state : BrowserState
empty_state = record {
  cookies = nil;
  origins = nil;
  indexed_db_included = false;
  engine_name = camoufox;
  schema_version = codes "browser_state_v1";
}

abbrev pub launch_error : Exc
launch_error = plain other_exception (codes "OSError") (codes "no browser")

-- The launch and the context's close may be made to fail.
abbrev pub toy : Bool → Bool → Collaborators
toy can_launch can_close = record {
  World = ℕ;
  Lock = ℕ;
  Runtime = ℕ;
  Context = ℕ;
  utc_now = λ w. (w, suc w);
  resolve = λ p w. ok p;
  profile_dir = λ p. record { absolute = true; parts = codes "data" ∷ p ∷ [] };
  run_dir = λ p r. record { absolute = true; parts = codes "data" ∷ p ∷ r ∷ [] };
  relative_to_data_dir = λ p w. ok (record { absolute = false; parts = codes "runs" ∷ [] });
  ensure_profile_layout = λ p w. (ok tt, w);
  ensure_run_layout = λ p r w. (ok tt, w);
  acquire = λ p w. (ok 0, w);
  release = λ l w. (ok tt, w);
  read_state = λ r w. (ok empty_state, w);
  write_initial_state = λ p r s state w. (ok (some_ref storage_state_initial), w);
  write_final_state = λ p r s state w. (ok (some_ref storage_state_final), w);
  launch = λ l w. (if can_launch then ok 0 else raised launch_error, w);
  new_context = λ r l s i w. (ok 0, w);
  storage_state = λ x w. (ok empty_state, w);
  close_context = λ x w. (if can_close then ok tt else raised launch_error, w);
  close_runtime = λ x w. (ok tt, w);
  redact_exception = λ e. codes "OSError: no browser";
}

abbrev pub default_launch : BrowserLaunchConfig
default_launch = record {
  engine_name = camoufox;
  mode = headless;
  executable_path = none;
  user_data_dir = none;
  slow_mo_ms = 0;
  timeout_ms = 30_000;
  proxy = none;
  fingerprint = none;
  args = [];
  env = [];
  enable_tracing = false;
  enable_video = false;
  enable_console_capture = true;
}

abbrev pub default_context : BrowserContextConfig
default_context = record {
  viewport = none;
  locale = none;
  timezone_id = none;
  user_agent = none;
  color_scheme = none;
  reduced_motion = none;
  environment_profile_id = none;
  accept_downloads = false;
  java_script_enabled = true;
  ignore_https_errors = false;
  default_timeout_ms = 30_000;
  navigation_timeout_ms = 45_000;
  extra_http_headers = [];
  permissions = [];
  record_har_path = none;
  record_video_dir = none;
}

abbrev pub default_config : SessionConfig
default_config = record {
  launch = default_launch;
  context = default_context;
  persist_storage_state = true;
  capture_initial_storage_state = true;
  capture_final_storage_state = true;
  screenshot_on_failure = true;
  trace_on_failure = true;
}

abbrev pub profile_id : Text
profile_id = codes "prof_test_default"

abbrev pub session_id : Text
session_id = codes "sess_test_default"

abbrev pub some_profile : ProfileRecord
some_profile = record {
  created_at = 0;
  updated_at = none;
  profile_id = profile_id;
  name = codes "p";
  profile_dir = record { absolute = true; parts = codes "data" ∷ profile_id ∷ [] };
  fingerprint_profile_id = none;
  proxy_profile_id = none;
  active_lock_path = none;
  health_status = unknown;
  archived = false;
}

abbrev pub some_session : SessionRecord
some_session = record {
  created_at = 0;
  updated_at = none;
  session_id = session_id;
  name = codes "s";
  profile_id = profile_id;
  config = default_config;
  latest_initial_state = none;
  latest_final_state = none;
  health_status = unknown;
  archived = false;
}

abbrev pub some_request : RunRequest
some_request = record {
  session_id = session_id;
  start_url = some (codes "about:blank");
  headed_override = none;
  timeout_ms = 120_000;
  metadata = end;
}

abbrev pub some_run : Opened
some_run = record {
  session = some_session;
  profile = some_profile;
  request = some_request;
  run_id = codes "run_auto_0000000000000000";
  context_id = codes "ctx_auto_000000000000";
}

-- A state after a successful `__aenter__`.
abbrev pub running_state : (can_close : Bool) → Managed (toy true can_close)
running_state can_close = record {
  entered = true;
  exited = false;
  lock = some 0;
  runtime = some 0;
  context = some 0;
  started_at = 1;
  initial_ref = none;
  final_ref = none;
  run_record = none;
  context_record = none;
  result = none;
  world = 2;
  trace = event new_context true ∷ event launch true ∷ event acquire true ∷ [];
}
