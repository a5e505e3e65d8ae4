-- ===== src/Sessions/Manager/State.antt =====
-- The state of a `ManagedSessionContext`, the record of the calls that it made, and its small helpers.
use sight_stalker.Prelude.{
  ℕ, Bool, true, false, List, [], ◌∷◌, Option, none, some, Text, codes, Outcome, ok, raised,
  if◌then◌else◌,
}
use sight_stalker.Exec.{Exec}
use sight_stalker.Errors.{Exc}
use sight_stalker.Models.Json.{Fields, Items, natural, string, nil, cons, set_field}
use sight_stalker.Models.Artifacts.{ArtifactRef}
use sight_stalker.Models.Browser.{BrowserLaunchConfig}
use sight_stalker.Models.Identifiers.{BrowserMode, headed, headless}
use sight_stalker.Models.Paths.{FilePath}
use sight_stalker.Models.Records.{
  ProfileRecord, RunRequest, SessionRecord, RunRecord, BrowserContextRecord,
}
use sight_stalker.Sessions.Collaborators.{Collaborators}

-- The calls to collaborators, and whether each returned.
pub data Call : Type 0 where
  profile_layout acquire run_layout read_state write_initial launch new_context : Call
  storage_state write_final close_context close_runtime release : Call

pub data Event : Type 0 where
  event : Call → Bool → Event

pub record SessionLifecycleResult : Type 0 where
  pub run_record : RunRecord
  pub context_record : Option BrowserContextRecord
  pub updated_session : SessionRecord
  pub initial_state_ref : Option ArtifactRef
  pub final_state_ref : Option ArtifactRef
  pub relative_run_dir : FilePath

-- What `open_context` passes to the constructor, and the identifiers that it mints.
pub record Opened : Type 0 where
  pub session : SessionRecord
  pub profile : ProfileRecord
  pub request : RunRequest
  pub run_id : Text
  pub context_id : Text

-- The mutable attributes, the world, and the calls so far, the newest first.
pub record Managed (c : Collaborators) : Type 0 where
  pub entered : Bool
  pub exited : Bool
  pub lock : Option c.Lock
  pub runtime : Option c.Runtime
  pub context : Option c.Context
  pub started_at : ℕ
  pub initial_ref : Option ArtifactRef
  pub final_ref : Option ArtifactRef
  pub run_record : Option RunRecord
  pub context_record : Option BrowserContextRecord
  pub result : Option SessionLifecycleResult
  pub world : c.World
  pub trace : List Event

-- `__init__`
unfoldable pub open_context : (c : Collaborators) → c.World → Managed c
open_context c w =
    let (started_at, w') = c.utc_now w in
    record {
      entered = false;
      exited = false;
      lock = none;
      runtime = none;
      context = none;
      started_at = started_at;
      initial_ref = none;
      final_ref = none;
      run_record = none;
      context_record = none;
      result = none;
      world = w';
      trace = [];
    }

abbrev pub timeout_key : Text
timeout_key = codes "_sightstalker_request_timeout_ms"

abbrev pub cleanup_errors_key : Text
cleanup_errors_key = codes "_sightstalker_cleanup_errors"

abbrev pub is_ok {ℓ κ} : {E : Type ℓ} {A : Type κ} → Outcome E A → Bool
is_ok (ok a) = true
is_ok (raised e) = false

-- `_collected_artifacts`
unfoldable pub collected_artifacts : Option ArtifactRef → Option ArtifactRef → List ArtifactRef
collected_artifacts none none = []
collected_artifacts none (some final) = final ∷ []
collected_artifacts (some initial) none = initial ∷ []
collected_artifacts (some initial) (some final) = initial ∷ final ∷ []

unfoldable pub mode_of : Bool → BrowserMode
mode_of is_headed = if is_headed then headed else headless

-- `_build_launch_config`
unfoldable pub build_launch_config : SessionRecord → Option Bool → BrowserLaunchConfig
unfolding mode_of
build_launch_config session none = session.config.launch
build_launch_config session (some is_headed) = record (session.config.launch) {
  mode = mode_of is_headed;
}

-- `_build_metadata`
unfoldable pub build_metadata : RunRequest → Fields
build_metadata request = set_field timeout_key (natural request.timeout_ms) request.metadata

unfoldable pub texts : List Text → Items
texts [] = nil
texts (t ∷ rest) = cons (string t) (texts rest)

module _ {c : Collaborators} where
  -- A call to a collaborator.
  unfoldable pub perform {ℓ} :
      {A : Type ℓ} → Call → (c.World → Outcome Exc A × c.World) → Exec Exc (Managed c) A
  perform k f s =
      let (r, w) = f s.world in (r, record s { world = w; trace = event k (is_ok r) ∷ s.trace })

  unfoldable pub now : Managed c → ℕ × Managed c
  now s = let (t, w) = c.utc_now s.world in (t, record s { world = w })
