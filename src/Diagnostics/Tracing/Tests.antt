-- ===== src/Diagnostics/Tracing/Tests.antt =====
-- A trace handle in concrete surroundings.
use sight_stalker.Prelude.{
  ◌+◌, ◌≤◌, ◌≡◌, refl, [], true, false, none, some, codes, ok, raised, text_eq,
}
use sight_stalker.Models.Identifiers.{ArtifactType, sha256}
use sight_stalker.Diagnostics.Suffix.{Kind, validate_suffix}
use sight_stalker.Diagnostics.Recorder.{
  DiagnosticArtifactResult, DiagnosticPersistencePolicy, persistence_error_of,
  persist_artifact_result,
}
use sight_stalker.Diagnostics.Tracing.{active, TraceCapture, Surroundings, is_active, stop, discard}
use sight_stalker.Diagnostics.Tracing.Lifecycle.{
  IsOrderly, here, next, stopping, discarding, trace_stopped_once, stop_rearms,
}

abbrev handle : TraceCapture
handle = record { state = active; filename_suffix = codes "trace.zip"; stop_calls = 0 }

abbrev some_result : DiagnosticArtifactResult
some_result = record {
  artifact_ref = record {
    artifact_id = codes "art_trace_00000000";
    artifact_type = ArtifactType.trace;
    relative_path = record { absolute = false; parts = [] };
    sha256 = codes "00";
    size_bytes = 0;
    mime_type = none;
    hash_algorithm = sha256;
  };
  target = record { session_id = none; run_id = none; context_id = none; run_order = none };
  persisted = false;
}

abbrev calm : Surroundings
calm = record {
  temp_file = ok tt;
  stop_tracing = ok tt;
  write_artifact = ok some_result;
  persistence = none;
}

abbrev persisting : DiagnosticPersistencePolicy
persisting = record { persist_artifact_metadata = true; persist_health_record = false }

calm-IsOrderly : IsOrderly calm
calm-IsOrderly = record { stops = tt; writes = tt }

trace_stopped_once_example :
    ((discard calm (stop calm none handle).1).1.stop_calls ≤ 1)
    × (is_active (discard calm (stop calm none handle).1).1.state ≡ false
        → (discard calm (stop calm none handle).1).1.stop_calls ≡ 1)
trace_stopped_once_example =
    trace_stopped_once handle (discard calm (stop calm none handle).1).1 refl refl
      (next (next here (stopping calm calm-IsOrderly refl)) (discarding calm calm-IsOrderly refl))

suffix_valid : validate_suffix Kind.trace (codes "trace.zip") ≡ ok (codes "trace.zip")
unfolding validate_suffix text_eq
suffix_valid = refl

not_persisted :
    persist_artifact_result none persisting some_result
    ≡ raised (
        persistence_error_of
          (codes "artifact persistence requested but no repository was provided"))
unfolding persist_artifact_result
not_persisted = refl

stop_rearms_example :
    ((stop calm (some persisting) handle).0
      ≡ raised (
          persistence_error_of
            (codes "artifact persistence requested but no repository was provided")))
    × ((stop calm (some persisting) handle).1.state ≡ active)
    × ((discard calm (stop calm (some persisting) handle).1).1.stop_calls ≡ handle.stop_calls + 2)
stop_rearms_example =
    stop_rearms calm calm persisting handle (codes "trace.zip") some_result
      (persistence_error_of (codes "artifact persistence requested but no repository was provided"))
      refl suffix_valid refl refl refl refl not_persisted refl
