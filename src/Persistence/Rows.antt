-- ===== src/Persistence/Rows.antt =====
-- persistence/models.py: the columns of the tables. A row is the values that serialization.py makes, with the two
-- columns of `TimestampMixin`.
pub mod Paths
pub mod Write
pub mod Read
pub mod Sessions
pub mod Metadata
use sight_stalker.Prelude.{
  ℕ, Bool, Text, Option, none, some, Outcome, ok, raised, ◌++◌, codes, if◌then◌else◌,
}
use sight_stalker.Errors.{Exc, plain, value_error}
use sight_stalker.Models.Identifiers.{matches_id}
use sight_stalker.Persistence.Stored.{JsonLibrary, integrity_error}

-- A `datetime`: without a time zone, which counts as UTC, or with one, as its instant.
pub data Datetime : Type 0 where
  naive aware : ℕ → Datetime

-- `to_utc` and `from_db_datetime`
unfoldable pub to_utc : Datetime → ℕ
to_utc (naive t) = t
to_utc (aware t) = t

unfoldable pub from_db_datetime : Option Datetime → Option ℕ
unfolding to_utc
from_db_datetime none = none
from_db_datetime (some t) = some (to_utc t)

-- `to_utc(value) if value else None`
unfoldable pub to_db : Option ℕ → Option Datetime
to_db none = none
to_db (some t) = some (aware t)

pub record Timestamped (V : Type 0) : Type 0 where
  pub created_at : Datetime
  pub updated_at : Option Datetime
  pub values : V

pub record ProfileValues : Type 0 where
  pub profile_id : Text
  pub name : Text
  pub profile_dir : Text
  pub fingerprint_profile_id : Option Text
  pub proxy_profile_id : Option Text
  pub health_status : Text
  pub archived : Bool

pub record SessionValues (json : JsonLibrary) : Type 0 where
  pub session_id : Text
  pub name : Text
  pub profile_id : Text
  pub config_json : json.Stored
  pub latest_initial_artifact_id : Option Text
  pub latest_final_artifact_id : Option Text
  pub health_status : Text
  pub archived : Bool

pub record RunValues (json : JsonLibrary) : Type 0 where
  pub run_id : Text
  pub session_id : Text
  pub status : Text
  pub started_at : Option Datetime
  pub completed_at : Option Datetime
  pub start_url : Option Text
  pub error_type : Option Text
  pub error_message_redacted : Option Text
  pub metadata_json : json.Stored

pub record ContextValues : Type 0 where
  pub context_id : Text
  pub run_id : Text
  pub session_id : Text
  pub initial_storage_artifact_id : Option Text
  pub final_storage_artifact_id : Option Text
  pub closed_at : Option Datetime

pub record ArtifactValues : Type 0 where
  pub artifact_id : Text
  pub artifact_type : Text
  pub relative_path : Text
  pub sha256 : Text
  pub size_bytes : ℕ
  pub mime_type : Option Text
  pub hash_algorithm : Text
  pub session_id : Option Text
  pub run_id : Option Text
  pub run_order : Option ℕ

pub record HealthValues : Type 0 where
  pub session_id : Text
  pub status : Text
  pub reason : Option Text
  pub last_successful_run_id : Option Text
  pub last_failed_run_id : Option Text

-- `_require(adapter, value, what)`, for an identifier
unfoldable pub require : Text → Text → Text → Outcome Exc Text
unfolding matches_id
require prefix value what =
    if matches_id prefix value
    then ok value
    else raised (integrity_error (what ++ codes " is malformed"))

unfoldable pub require_opt : Text → Option Text → Text → Outcome Exc (Option Text)
unfolding matches_id
require_opt prefix none what = ok none
require_opt prefix (some value) what =
    if matches_id prefix value
    then ok (some value)
    else raised (integrity_error (what ++ codes " is malformed"))

-- pydantic's check of an identifier that is read.
unfoldable pub valid_id : Text → Text → Outcome Exc Text
unfolding matches_id
valid_id prefix value =
    if matches_id prefix value
    then ok value
    else raised (plain value_error (codes "ValidationError") (codes "string_pattern_mismatch"))

unfoldable pub valid_opt : Text → Option Text → Outcome Exc (Option Text)
unfolding matches_id
valid_opt prefix none = ok none
valid_opt prefix (some value) =
    if matches_id prefix value
    then ok (some value)
    else raised (plain value_error (codes "ValidationError") (codes "string_pattern_mismatch"))
