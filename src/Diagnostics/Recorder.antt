-- ===== src/Diagnostics/Recorder.antt =====
-- diagnostics/recorder.py and diagnostics/models.py: `persist_artifact_result`. The injected repository
-- is given by what its `create` answers.
use sight_stalker.Prelude.{
  ℕ, Bool, true, not, ◌&&◌, Option, none, some, Text, codes, ◌++◌, Outcome, ok, raised, is_some,
  if◌then◌else◌,
}
use sight_stalker.Errors.{Exc, plain, diagnostic_persistence_error, class_name, is_exception}
use sight_stalker.Models.Artifacts.{ArtifactRef}

pub record DiagnosticTarget : Type 0 where
  pub session_id : Option Text
  pub run_id : Option Text
  pub context_id : Option Text
  pub run_order : Option ℕ

pub record DiagnosticPersistencePolicy : Type 0 where
  pub persist_artifact_metadata : Bool
  pub persist_health_record : Bool

pub record DiagnosticArtifactResult : Type 0 where
  pub artifact_ref : ArtifactRef
  pub target : DiagnosticTarget
  pub persisted : Bool

-- `ArtifactPersistenceProtocol.create`
abbrev pub Create : Type 0
Create = ArtifactRef → DiagnosticTarget → Outcome Exc ArtifactRef

-- `raise DiagnosticPersistenceError(text)`
abbrev pub persistence_error_of : Text → Exc
persistence_error_of text =
    plain diagnostic_persistence_error (codes "DiagnosticPersistenceError") text

-- The `except` clauses: a `DiagnosticPersistenceError` goes on as it is, any other `Exception` is
-- wrapped, and what is no `Exception` goes on.
unfoldable pub wrap_failure : Exc → Exc
unfolding is_exception
wrap_failure (plain diagnostic_persistence_error name text) =
    plain diagnostic_persistence_error name text
wrap_failure e =
    if is_exception e
    then persistence_error_of (codes "artifact metadata persistence failed: " ++ class_name e)
    else e

mark_persisted :
    DiagnosticArtifactResult → Outcome Exc ArtifactRef → Outcome Exc DiagnosticArtifactResult
mark_persisted result (ok ref) = ok (record result { persisted = true })
mark_persisted result (raised e) = raised (wrap_failure e)

create_in : Option Create → DiagnosticArtifactResult → Outcome Exc DiagnosticArtifactResult
create_in none result =
    raised
      (persistence_error_of (codes "artifact persistence requested but no repository was provided"))
create_in (some create) result =
    if is_some result.target.run_id && not (is_some result.target.run_order)
    then raised
        (persistence_error_of (codes "run_order is required to persist a run-scoped artifact"))
    else mark_persisted result (create result.artifact_ref result.target)

-- `persist_artifact_result`
unfoldable pub persist_artifact_result :
    Option Create
    → DiagnosticPersistencePolicy
    → DiagnosticArtifactResult
    → Outcome Exc DiagnosticArtifactResult
unfolding wrap_failure mark_persisted create_in
persist_artifact_result persistence policy result =
    if not policy.persist_artifact_metadata then ok result else create_in persistence result
