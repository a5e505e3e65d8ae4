-- ===== src/Sessions/Collaborators.antt =====
-- What a `ManagedSessionContext` is given: the browser engine, the state store, the lock manager, the
-- path authority, the clock and `redact_exception`, over an unknown world. Every call may raise.
use sight_stalker.Prelude.{ℕ, Text, Option, Outcome}
use sight_stalker.Errors.{Exc}
use sight_stalker.Models.Artifacts.{ArtifactRef}
use sight_stalker.Models.Browser.{BrowserContextConfig, BrowserLaunchConfig, BrowserState}
use sight_stalker.Models.Paths.{FilePath}
use sight_stalker.Models.Records.{ProfileRecord}

pub record Collaborators : Type 1 where
  pub World : Type 0
  pub Lock : Type 0
  pub Runtime : Type 0
  pub Context : Type 0
  -- `utc_now()`
  pub utc_now : World → ℕ × World
  -- `Path.resolve()`, `SessionPaths.profile_dir`, `run_dir` and `relative_to_data_dir`
  pub resolve : FilePath → World → Outcome Exc FilePath
  pub profile_dir : Text → FilePath
  pub run_dir : Text → Text → FilePath
  pub relative_to_data_dir : FilePath → World → Outcome Exc FilePath
  pub ensure_profile_layout : Text → World → Outcome Exc (Unit {0}) × World
  pub ensure_run_layout : Text → Text → World → Outcome Exc (Unit {0}) × World
  -- `ProfileLockManager.acquire` and `ProfileLockHandle.release`
  pub acquire : ProfileRecord → World → Outcome Exc Lock × World
  pub release : Lock → World → Outcome Exc (Unit {0}) × World
  -- `BrowserStateStore`: profile, run and session identifiers, and the state
  pub read_state : ArtifactRef → World → Outcome Exc BrowserState × World
  pub write_initial_state :
      Text → Text → Text → BrowserState → World → Outcome Exc ArtifactRef × World
  pub write_final_state :
      Text → Text → Text → BrowserState → World → Outcome Exc ArtifactRef × World
  -- `BrowserEngine`, `BrowserRuntime` and `BrowserContextHandle`
  pub launch : BrowserLaunchConfig → World → Outcome Exc Runtime × World
  pub new_context :
      Runtime
      → BrowserContextConfig
      → Option BrowserState
      → Text
      → World
      → Outcome Exc Context × World
  pub storage_state : Context → World → Outcome Exc BrowserState × World
  pub close_context : Context → World → Outcome Exc (Unit {0}) × World
  pub close_runtime : Runtime → World → Outcome Exc (Unit {0}) × World
  pub redact_exception : Exc → Text
