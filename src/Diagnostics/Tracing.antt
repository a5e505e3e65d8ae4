-- ===== src/Diagnostics/Tracing.antt =====
-- diagnostics/tracing.py: the life of a `TraceCaptureHandle`. What the browser, the temporary file, the
-- artifact writer and the repository do in one call of `stop` or `discard` is given by `Surroundings`.
pub mod Lifecycle
mod Tests
use sight_stalker.Prelude.{
  ℕ, suc, ◌+◌, Bool, true, false, not, ◌&&◌, Option, none, some, Text, codes, ◌++◌, Outcome, ok,
  raised, ◌==◌, Eq, if◌then◌else◌,
}
use sight_stalker.Exec.{Exec}
use sight_stalker.Errors.{Exc, class_name, is_exception}
use sight_stalker.Diagnostics.Suffix.{Kind, validate_suffix, capture_error}
use sight_stalker.Diagnostics.Recorder.{
  DiagnosticArtifactResult, DiagnosticPersistencePolicy, Create, persist_artifact_result,
}

pub data TraceState : Type 0 where
  active stopped discarded failed : TraceState

-- The handle: its state, its suffix option, and how often it has called `context.stop_tracing`.
pub record TraceCapture : Type 0 where
  pub state : TraceState
  pub filename_suffix : Text
  pub stop_calls : ℕ

pub record Surroundings : Type 0 where
  -- entering `hardened_temp_file`
  pub temp_file : Outcome Exc (Unit {0})
  pub stop_tracing : Outcome Exc (Unit {0})
  -- `temp.read_bytes()` followed by `recorder.write_bytes(…)`
  pub write_artifact : Outcome Exc DiagnosticArtifactResult
  pub persistence : Option Create

state_name : TraceState → Text
state_name active = codes "active"
state_name stopped = codes "stopped"
state_name discarded = codes "discarded"
state_name failed = codes "failed"

abbrev pub is_active : TraceState → Bool
is_active active = true
is_active _ = false

-- `except Exception`: the handle fails and the error is wrapped. What is no `Exception` goes through.
fail_with {ℓ} : {A : Type ℓ} → Text → Exc → Exec Exc TraceCapture A
fail_with reason e s =
    if is_exception e
    then (raised (capture_error (reason ++ class_name e)), record s { state = failed })
    else (raised e, s)

-- `stop_tracing` is called.
count_stop : TraceCapture → TraceCapture
count_stop s = record s { stop_calls = suc s.stop_calls }

finish_stop : Outcome Exc DiagnosticArtifactResult → Exec Exc TraceCapture DiagnosticArtifactResult
finish_stop (ok result) s = (ok result, record s { state = stopped })
finish_stop (raised e) s = (raised e, s)

persist_if :
    Option DiagnosticPersistencePolicy
    → Option Create
    → DiagnosticArtifactResult
    → Outcome Exc DiagnosticArtifactResult
persist_if none persistence result = ok result
persist_if (some policy) persistence result =
    if policy.persist_artifact_metadata
    then persist_artifact_result persistence policy result
    else ok result

write_after :
    Outcome Exc DiagnosticArtifactResult
    → Option Create
    → Option DiagnosticPersistencePolicy
    → Exec Exc TraceCapture DiagnosticArtifactResult
unfolding fail_with
write_after (raised e) persistence policy s = fail_with (codes "trace artifact write failed: ") e s
write_after (ok result) persistence policy s = finish_stop (persist_if policy persistence result) s

stop_after :
    Outcome Exc (Unit {0})
    → Surroundings
    → Option DiagnosticPersistencePolicy
    → Exec Exc TraceCapture DiagnosticArtifactResult
unfolding fail_with write_after
stop_after (raised e) env policy s = fail_with (codes "trace stop failed: ") e s
stop_after (ok _) env policy s = write_after env.write_artifact env.persistence policy s

within_temp :
    Outcome Exc (Unit {0})
    → Surroundings
    → Option DiagnosticPersistencePolicy
    → Exec Exc TraceCapture DiagnosticArtifactResult
within_temp (raised e) env policy s = (raised e, s)
within_temp (ok _) env policy s = stop_after env.stop_tracing env policy (count_stop s)

stop_valid :
    Outcome Exc Text
    → Surroundings
    → Option DiagnosticPersistencePolicy
    → Exec Exc TraceCapture DiagnosticArtifactResult
stop_valid (raised e) env policy s = (raised e, s)
stop_valid (ok suffix) env policy s = within_temp env.temp_file env policy s

-- `stop(policy=policy)`
unfoldable pub stop :
    Surroundings
    → Option DiagnosticPersistencePolicy
    → Exec Exc TraceCapture DiagnosticArtifactResult
unfolding stop_valid within_temp stop_after write_after persist_if finish_stop fail_with count_stop
    state_name
stop env policy s =
    if not (is_active s.state)
    then (
      raised (
          capture_error
            (codes "cannot stop trace in state '" ++ (state_name s.state ++ codes "'"))),
      s,
    )
    else stop_valid (validate_suffix Kind.trace s.filename_suffix) env policy s

discard_after : Outcome Exc (Unit {0}) → Exec Exc TraceCapture (Unit {0})
discard_after (raised e) s = fail_with (codes "trace discard failed: ") e s
discard_after (ok _) s = (ok tt, record s { state = discarded })

discard_within : Outcome Exc (Unit {0}) → Surroundings → Exec Exc TraceCapture (Unit {0})
discard_within (raised e) env s = (raised e, s)
discard_within (ok _) env s = discard_after env.stop_tracing (count_stop s)

-- `discard()`
unfoldable pub discard : Surroundings → Exec Exc TraceCapture (Unit {0})
unfolding discard_within discard_after fail_with count_stop
discard env s = if not (is_active s.state) then (ok tt, s) else discard_within env.temp_file env s
