-- ===== src/Models/Records.antt =====
-- models/runs.py and models/sessions.py: requests and durable records. A time is a number of
-- microseconds in UTC.
use sight_stalker.Prelude.{ℕ, Bool, List, Option, Text}
use sight_stalker.Models.Json.{Fields}
use sight_stalker.Models.Identifiers.{HealthStatus, RunStatus}
use sight_stalker.Models.Paths.{FilePath}
use sight_stalker.Models.Artifacts.{ArtifactRef}
use sight_stalker.Models.Browser.{BrowserContextConfig, BrowserLaunchConfig}

pub record RunRequest : Type 0 where
  pub session_id : Text
  pub start_url : Option Text
  pub headed_override : Option Bool
  pub timeout_ms : ℕ
  pub metadata : Fields

pub record BrowserContextRecord : Type 0 where
  pub created_at : ℕ
  pub updated_at : Option ℕ
  pub context_id : Text
  pub run_id : Text
  pub session_id : Text
  pub initial_storage_state : Option ArtifactRef
  pub final_storage_state : Option ArtifactRef
  pub closed_at : Option ℕ

pub record RunRecord : Type 0 where
  pub created_at : ℕ
  pub updated_at : Option ℕ
  pub run_id : Text
  pub session_id : Text
  pub status : RunStatus
  pub started_at : Option ℕ
  pub completed_at : Option ℕ
  pub start_url : Option Text
  pub error_type : Option Text
  pub error_message_redacted : Option Text
  pub artifacts : List ArtifactRef
  pub metadata : Fields

pub record ProfileRecord : Type 0 where
  pub created_at : ℕ
  pub updated_at : Option ℕ
  pub profile_id : Text
  pub name : Text
  pub profile_dir : FilePath
  pub fingerprint_profile_id : Option Text
  pub proxy_profile_id : Option Text
  pub active_lock_path : Option FilePath
  pub health_status : HealthStatus
  pub archived : Bool

pub record SessionConfig : Type 0 where
  pub launch : BrowserLaunchConfig
  pub context : BrowserContextConfig
  pub persist_storage_state : Bool
  pub capture_initial_storage_state : Bool
  pub capture_final_storage_state : Bool
  pub screenshot_on_failure : Bool
  pub trace_on_failure : Bool

pub record SessionRecord : Type 0 where
  pub created_at : ℕ
  pub updated_at : Option ℕ
  pub session_id : Text
  pub name : Text
  pub profile_id : Text
  pub config : SessionConfig
  pub latest_initial_state : Option ArtifactRef
  pub latest_final_state : Option ArtifactRef
  pub health_status : HealthStatus
  pub archived : Bool

pub record SessionHealthRecord : Type 0 where
  pub created_at : ℕ
  pub updated_at : Option ℕ
  pub session_id : Text
  pub status : HealthStatus
  pub reason : Option Text
  pub last_successful_run_id : Option Text
  pub last_failed_run_id : Option Text
