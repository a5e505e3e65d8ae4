-- ===== src/Sessions/StateStore.antt =====
-- sessions/state_store.py: `BrowserStateStore`, over the artifact store. `model_validate` of pydantic is a parameter.
pub mod Roundtrip
pub mod Fixture
mod Tests
use sight_stalker.Prelude.{
  ◌≡◌, ℕ, Bool, true, false, List, [], ◌∷◌, Option, none, some, Text, codes, Outcome, ok, raised,
  if◌then◌else◌, ◌>>=◌,
}
use sight_stalker.Errors.{
  Exc, ExcClass, project, cli, plain, session_state_error, artifact_error, value_error,
}
use sight_stalker.Exec
use sight_stalker.Exec.{Exec, lift}
use sight_stalker.Ids.{new_artifact_id}
use sight_stalker.Models.Artifacts.{ArtifactRef}
use sight_stalker.Models.Browser.{BrowserState}
use sight_stalker.Models.Identifiers.{
  ArtifactType, storage_state_initial, storage_state_final, profile_prefix, run_prefix,
}
use sight_stalker.Models.Json.{Json, Fields, array, boolean, string, object, end, field}
use sight_stalker.Models.Literals.{engine_text}
use sight_stalker.Models.Paths.{FilePath}
use sight_stalker.Security.Redaction.{TextLibrary}
use sight_stalker.Artifacts.FileSystem.{FileSystem}
use sight_stalker.Artifacts.Manager.{Codec, WriteRequest, write_json, read_json}
use sight_stalker.Sessions.Paths.{
  validate, storage_state_initial_path, storage_state_final_path, session_relative,
}

-- `raise SessionStateError(text)`
abbrev pub state_error : Text → Exc
state_error text = plain session_state_error (codes "SessionStateError") text

-- `state.model_dump(mode="json")`
unfoldable pub state_fields : BrowserState → Fields
unfolding engine_text
state_fields state = field (codes "cookies") (array state.cookies) (
    field (codes "origins") (array state.origins) (
      field (codes "indexed_db_included") (boolean state.indexed_db_included) (
        field (codes "engine_name") (string (engine_text state.engine_name))
          (field (codes "schema_version") (string state.schema_version) end))))

-- `isinstance(exc, ArtifactError)` and `isinstance(exc, ValueError)`
is_artifact_error : Exc → Bool
is_artifact_error (plain artifact_error name message) = true
is_artifact_error _ = false

is_value_error : Exc → Bool
is_value_error (plain value_error name message) = true
is_value_error _ = false

-- `except ArtifactError:` and `except ValueError:`, with the error raised instead
unfoldable pub hide_artifact_error {ℓ} : {A : Type ℓ} → Text → Outcome Exc A → Outcome Exc A
unfolding is_artifact_error
hide_artifact_error text (ok a) = ok a
hide_artifact_error text (raised e) = raised (if is_artifact_error e then state_error text else e)

unfoldable pub hide_value_error {ℓ} : {A : Type ℓ} → Text → Outcome Exc A → Outcome Exc A
unfolding is_value_error
hide_value_error text (ok a) = ok a
hide_value_error text (raised e) = raised (if is_value_error e then state_error text else e)

-- `_PREFIX_FOR_TYPE`
unfoldable pub state_prefix : ArtifactType → Text
state_prefix storage_state_initial = codes "init"
state_prefix _ = codes "final"

is_state_type : ArtifactType → Bool
is_state_type storage_state_initial = true
is_state_type storage_state_final = true
is_state_type _ = false

module _ (fs : FileSystem) (root : FilePath) where
  path_of_type : ArtifactType → Text → Text → Outcome Exc FilePath
  unfolding storage_state_initial_path storage_state_final_path
  path_of_type storage_state_initial profile_id run_id =
      storage_state_initial_path fs root profile_id run_id
  path_of_type storage_state_final profile_id run_id =
      storage_state_final_path fs root profile_id run_id
  path_of_type _ profile_id run_id =
      raised (state_error (codes "unsupported storage-state artifact type"))

  unfoldable pub state_path_for : Text → Text → ArtifactType → Outcome Exc FilePath
  unfolding validate path_of_type
  state_path_for profile_id run_id artifact_type = do
    validated_profile ← validate profile_prefix profile_id
    validated_run ← validate run_prefix run_id
    path_of_type artifact_type validated_profile validated_run

  relative_state_path : Text → Text → ArtifactType → fs.World → Outcome Exc FilePath
  unfolding state_path_for hide_value_error session_relative
  relative_state_path profile_id run_id artifact_type w =
      state_path_for profile_id run_id artifact_type >>= λ target.
      hide_value_error (codes "storage-state path is unsafe") (session_relative fs root target w)

  module _ (codec : Codec) where
    -- `hex` is what `new_artifact_id` draws.
    state_request : Text → ArtifactType → FilePath → WriteRequest
    unfolding new_artifact_id state_prefix
    state_request hex artifact_type relative = record {
      relative_path = relative;
      artifact_type = artifact_type;
      artifact_id = some (new_artifact_id (codes "state") (state_prefix artifact_type) hex);
      mime_type = none;
    }

    hidden_write : Outcome Exc ArtifactRef × fs.World → Outcome Exc ArtifactRef × fs.World
    unfolding hide_artifact_error
    hidden_write (r, w) =
        (hide_artifact_error (codes "storage-state artifact could not be written") r, w)

    unfoldable pub write_state :
        TextLibrary
        → Text
        → Text
        → Text
        → BrowserState
        → ArtifactType
        → Exec Exc fs.World ArtifactRef
    unfolding relative_state_path state_request hidden_write state_fields write_json
    write_state lib hex profile_id run_id state artifact_type =
        Exec.◌>>=◌ (λ w. (relative_state_path profile_id run_id artifact_type w, w))
          (λ relative w. hidden_write (
            write_json fs root lib codec hex (state_request hex artifact_type relative)
              (object (state_fields state)) w))

    unfoldable pub write_initial_state :
        TextLibrary → Text → Text → Text → BrowserState → Exec Exc fs.World ArtifactRef
    unfolding write_state
    write_initial_state lib hex profile_id run_id state =
        write_state lib hex profile_id run_id state storage_state_initial

    unfoldable pub write_final_state :
        TextLibrary → Text → Text → Text → BrowserState → Exec Exc fs.World ArtifactRef
    unfolding write_state
    write_final_state lib hex profile_id run_id state =
        write_state lib hex profile_id run_id state storage_state_final

    -- `model_validate` is `BrowserState.model_validate`, `none` where it raises `ValidationError`.
    module _ (model_validate : Fields → Option BrowserState) where
      validated_state : Option BrowserState → Outcome Exc BrowserState
      validated_state none = raised (state_error (codes "storage-state failed validation"))
      validated_state (some state) = ok state

      state_of : Json → Outcome Exc BrowserState
      unfolding validated_state
      state_of (object d) = validated_state (model_validate d)
      state_of _ = raised (state_error (codes "storage-state payload is not a JSON object"))

      unfoldable pub read_state : ArtifactRef → fs.World → Outcome Exc BrowserState
      unfolding is_state_type hide_artifact_error read_json state_of
      read_state ref w =
          if is_state_type ref.artifact_type
          then hide_artifact_error (codes "storage-state artifact could not be read")
              (read_json fs root codec ref w)
            >>= state_of
          else raised (state_error (codes "artifact_type is not a storage-state type"))
