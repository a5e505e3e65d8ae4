-- ===== src/Diagnostics/Tracing/Lifecycle.antt =====
-- How often a trace is stopped.
use sight_stalker.Prelude.{◌+◌, ◌≤◌, ◌≡◌, true, false, none, some, Text, ok, raised, Outcome, arith}
use sight_stalker.Errors.{Exc, is_exception}
use sight_stalker.Diagnostics.Suffix.{Kind, validate_suffix}
use sight_stalker.Diagnostics.Recorder.{
  DiagnosticArtifactResult, DiagnosticPersistencePolicy, persist_artifact_result,
}
use sight_stalker.Diagnostics.Tracing.{active, TraceCapture, Surroundings, is_active, stop, discard}

-- What is raised is an `Exception`, so that `except Exception` sees it.
abbrev pub Catchable : {A : Type 0} → Outcome Exc A → Type 0
Catchable (ok a) = Unit
Catchable (raised e) = is_exception e ≡ true

-- Stopping and writing raise nothing but `Exception`s.
pub record IsOrderly (env : Surroundings) : Type 0 where
  pub stops : Catchable env.stop_tracing
  pub writes : Catchable env.write_artifact

-- One call on the handle; a `stop` does not ask for the metadata to be persisted.
pub data Step (s t : TraceCapture) : Type 0 where
  stopping : (env : Surroundings) → IsOrderly env → t ≡ (stop env none s).1 → Step s t
  discarding : (env : Surroundings) → IsOrderly env → t ≡ (discard env s).1 → Step s t

pub data Reach (s : TraceCapture) : TraceCapture → Type 0 where
  here : Reach s s
  next : {t u : TraceCapture} → Reach s t → Step t u → Reach s u

-- An active handle has not stopped tracing, any other has stopped it once.
abbrev pub IsCounted : TraceCapture → Type 0
IsCounted s =
    (is_active s.state ≡ true → s.stop_calls ≡ 0) × (is_active s.state ≡ false → s.stop_calls ≡ 1)

stop-IsCounted :
    (env : Surroundings) (s : TraceCapture)
    → IsOrderly env
    → IsCounted s
    → IsCounted (stop env none s).1
unfolding stop
stop-IsCounted env s o h = ground arith

discard-IsCounted :
    (env : Surroundings) (s : TraceCapture)
    → IsOrderly env
    → IsCounted s
    → IsCounted (discard env s).1
unfolding discard
discard-IsCounted env s o h = ground arith

Step-IsCounted : {s t : TraceCapture} → Step s t → IsCounted s → IsCounted t
Step-IsCounted {s} (stopping env o e) h = rw e (stop-IsCounted env s o h)
Step-IsCounted {s} (discarding env o e) h = rw e (discard-IsCounted env s o h)

Reach-IsCounted : {s t : TraceCapture} → IsCounted s → Reach s t → IsCounted t
Reach-IsCounted h here = h
Reach-IsCounted h (next r st) = Step-IsCounted st (Reach-IsCounted h r)

-- However `stop` (without metadata persistence) and `discard` are called on a new handle, and whatever
-- `Exception`s the browser and the writer raise, `stop_tracing` is called at most once, and it has been
-- called exactly once if the handle is no longer active.
pub trace_stopped_once :
    (s t : TraceCapture)
    → s.state ≡ active
    → s.stop_calls ≡ 0
    → Reach s t
    → (t.stop_calls ≤ 1) × (is_active t.state ≡ false → t.stop_calls ≡ 1)
trace_stopped_once s t a z r = ground (arith, Reach-IsCounted {s = s} {t = t} counted r)
  where
    counted : IsCounted s
    counted = ground arith

-- The other way to fail: if stopping and writing succeed and the requested persistence of the metadata
-- fails, then `stop` raises and leaves the handle active, so that a `discard` after it, with a
-- temporary file at its disposal, calls `stop_tracing` a second time.
pub stop_rearms :
    (env later : Surroundings) (policy : DiagnosticPersistencePolicy) (s : TraceCapture)
    (suffix : Text) (result : DiagnosticArtifactResult) (e : Exc)
    → s.state ≡ active
    → validate_suffix Kind.trace s.filename_suffix ≡ ok suffix
    → env.temp_file ≡ ok tt
    → env.stop_tracing ≡ ok tt
    → env.write_artifact ≡ ok result
    → policy.persist_artifact_metadata ≡ true
    → persist_artifact_result env.persistence policy result ≡ raised e
    → later.temp_file ≡ ok tt
    → ((stop env (some policy) s).0 ≡ raised e)
      × ((stop env (some policy) s).1.state ≡ active)
      × ((discard later (stop env (some policy) s).1).1.stop_calls ≡ s.stop_calls + 2)
unfolding stop discard
stop_rearms env later policy s suffix result e a v t st w p f l = ground arith
