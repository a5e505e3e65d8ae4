-- ===== src/Artifacts/Manager.antt =====
-- artifacts/manager.py: `ArtifactManager`. Encoders and JSON are parameters; bytes are a list of numbers.
pub mod Finished
pub mod Roundtrip
pub mod Documents
pub mod Preserves
use sight_stalker.Prelude.{
  ◌≡◌, ℕ, Bool, true, false, not, ◌&&◌, ◌||◌, List, [], ◌∷◌, ◌++◌, Option, none, some, Text, codes,
  Outcome, ok, raised, ◌==◌, text_eq, nat_eq, length, or_else, if◌then◌else◌, ◌>>=◌, ◌>>◌,
}
use sight_stalker.Errors.{Exc, plain, value_error}
use sight_stalker.Exec
use sight_stalker.Exec.{Exec, pure, lift}
use sight_stalker.Ids.{new_artifact_id}
use sight_stalker.Models.Artifacts.{ArtifactRef}
use sight_stalker.Models.Identifiers.{
  ArtifactType, screenshot, trace, storage_state_initial, storage_state_final, fingerprint_profile,
  run_log, diagnostic_bundle, HashAlgorithm, matches_id, artifact_prefix,
}
use sight_stalker.Models.Json.{Json}
use sight_stalker.Models.Paths.{FilePath, child, last_part, parent_parts}
use sight_stalker.Security.Redaction.{TextLibrary}
use sight_stalker.Artifacts.FileSystem.{
  FileSystem, Created, Written, Reading, opened, already_exists, refused, irregular, broken,
  written, not_opened, not_regular, not_read, contents, is_digest,
}
use sight_stalker.Artifacts.Mime.{
  store_error, path_error, exists_error, artifact_integrity_error, infer_mime_type,
}
use sight_stalker.Artifacts.Paths.{
  assert_safe_relative_path, scan_no_symlinks, ensure_parent_dir, resolve_relative_path,
  relative_to_data_dir,
}

-- What `json.dumps(...).encode("utf-8")` comes to: bytes, a `ValueError`, or an exception of another class.
pub data Encoded : Type 0 where
  encoded : Text → Encoded
  invalid_value : Encoded
  not_serializable : Exc → Encoded

-- `json.dumps` as above, `json.loads(raw.decode("utf-8"))`, `encode` and `decode`; `none` where an error is raised that
-- the code catches.
pub record Codec : Type 0 where
  pub encode_json : Json → Encoded
  pub decode_json : Text → Option Json
  pub encode_text : Text → Option Text
  pub decode_text : Text → Option Text

-- `atype.split("_")[0]`
unfoldable pub type_prefix : ArtifactType → Text
type_prefix screenshot = codes "screenshot"
type_prefix trace = codes "trace"
type_prefix storage_state_initial = codes "storage"
type_prefix storage_state_final = codes "storage"
type_prefix fingerprint_profile = codes "fingerprint"
type_prefix run_log = codes "run"
type_prefix diagnostic_bundle = codes "diagnostic"

-- pydantic's checks of an `ArtifactRef`.
unfoldable pub is_valid_ref : ArtifactRef → Bool
unfolding matches_id is_digest
is_valid_ref ref = matches_id artifact_prefix ref.artifact_id && is_digest ref.sha256

unfoldable pub make_ref : ArtifactRef → Outcome Exc ArtifactRef
unfolding is_valid_ref
make_ref ref =
    if is_valid_ref ref
    then ok ref
    else raised (plain value_error (codes "ValidationError") (codes "string_pattern_mismatch"))

-- `_validate_id(artifact_id) if artifact_id is not None else None`
unfoldable pub validate_id : Option Text → Outcome Exc (Option Text)
unfolding matches_id
validate_id none = ok none
validate_id (some value) =
    if matches_id artifact_prefix value
    then ok (some value)
    else raised (path_error (codes "artifact id is malformed"))

unfoldable pub validate_ref : ArtifactRef → Outcome Exc ArtifactRef
unfolding is_valid_ref
validate_ref ref =
    if not (is_valid_ref ref)
    then raised (path_error (codes "artifact reference is malformed"))
    else if ref.relative_path.absolute
    then raised (path_error (codes "artifact reference path must be relative"))
    else ok ref

-- `except ValueError:` around the encoding; nothing else is caught.
json_data : Encoded → Outcome Exc Text
json_data (encoded raw) = ok raw
json_data invalid_value = raised (store_error (codes "artifact JSON payload is not serializable"))
json_data (not_serializable e) = raised e

or_raise {ℓ} : {A : Type ℓ} → Exc → Option A → Outcome Exc A
or_raise e none = raised e
or_raise e (some a) = ok a

-- The keyword arguments of `write_bytes` apart from the data.
pub record WriteRequest : Type 0 where
  pub relative_path : FilePath
  pub artifact_type : ArtifactType
  pub artifact_id : Option Text
  pub mime_type : Option Text

module _ (fs : FileSystem) where
  -- `os.chmod(target, 0o600)` and `_fsync_dir(target.parent)`
  settle : FilePath → Exec Exc fs.World (Unit {0})
  unfolding parent_parts
  settle target w = (
    ok tt,
    fs.sync_dir (record target { parts = parent_parts target.parts }) (fs.chmod target 0o600 w),
  )

  -- After the exclusive create: on failure the incomplete file is unlinked.
  finish_write : FilePath → Written × fs.World → Outcome Exc (Unit {0}) × fs.World
  unfolding settle
  finish_write target (irregular, w) =
      (raised (path_error (codes "artifact target is not a regular file")), fs.unlink target w)
  finish_write target (broken e, w) = (raised e, fs.unlink target w)
  finish_write target (written, w) = settle target w

  fill : FilePath → Text → Created × fs.World → Outcome Exc (Unit {0}) × fs.World
  unfolding finish_write
  fill target payload (already_exists, w) =
      (raised (exists_error (codes "artifact file already exists")), w)
  fill target payload (refused, w) =
      (raised (path_error (codes "artifact file could not be created")), w)
  fill target payload (opened, w) = finish_write target (fs.write target payload w)

  unfoldable pub exclusive_write : FilePath → Text → Exec Exc fs.World (Unit {0})
  unfolding fill
  exclusive_write target payload w =
      if fs.is_symlink target w
      then (raised (path_error (codes "artifact target is a symlink")), w)
      else fill target payload (fs.create target w)

  check_read : ArtifactRef → Reading → Outcome Exc Text
  unfolding text_eq
  check_read ref not_opened =
      raised (artifact_integrity_error (codes "referenced artifact file is missing or unreadable"))
  check_read ref not_regular = raised (path_error (codes "artifact target is not a regular file"))
  check_read ref not_read =
      raised (artifact_integrity_error (codes "referenced artifact file is unreadable"))
  check_read ref (contents raw) =
      if not (nat_eq (length raw) ref.size_bytes)
      then raised (artifact_integrity_error (codes "artifact size mismatch"))
      else if not (fs.sha256 raw == ref.sha256)
      then raised (artifact_integrity_error (codes "artifact hash mismatch"))
      else ok raw

  read_at : ArtifactRef → FilePath → fs.World → Outcome Exc Text
  unfolding check_read
  read_at ref absolute w =
      if fs.is_symlink absolute w
      then raised (path_error (codes "artifact target is a symlink"))
      else check_read ref (fs.read absolute w)

  module _ (root : FilePath) where
    -- `resolve(ref)`
    unfoldable pub resolve_ref : ArtifactRef → fs.World → Outcome Exc FilePath
    unfolding validate_ref resolve_relative_path
    resolve_ref ref w =
        validate_ref ref >>= λ validated. resolve_relative_path fs root validated.relative_path w

    unfoldable pub read_bytes : ArtifactRef → fs.World → Outcome Exc Text
    unfolding validate_ref resolve_relative_path read_at
    read_bytes ref w = do
      validated ← validate_ref ref
      absolute ← resolve_relative_path fs root validated.relative_path w
      read_at validated absolute w

    unfoldable pub verify : ArtifactRef → fs.World → Outcome Exc (Unit {0})
    unfolding read_bytes
    verify ref w = read_bytes ref w >>= λ _. ok tt

    unfoldable pub read_text : Codec → ArtifactRef → fs.World → Outcome Exc Text
    unfolding read_bytes or_raise
    read_text codec ref w = read_bytes ref w >>= λ raw.
        or_raise (artifact_integrity_error (codes "artifact text could not be decoded"))
          (codec.decode_text raw)

    unfoldable pub read_json : Codec → ArtifactRef → fs.World → Outcome Exc Json
    unfolding read_bytes or_raise
    read_json codec ref w = read_bytes ref w >>= λ raw.
        or_raise (artifact_integrity_error (codes "artifact JSON is invalid"))
          (codec.decode_json raw)

    module _ (lib : TextLibrary) where
      -- The reference to what was written at `relative`; `hex` is what `new_artifact_id` draws.
      ref_for : Text → WriteRequest → Text → Option Text → FilePath → Outcome Exc ArtifactRef
      unfolding infer_mime_type make_ref new_artifact_id type_prefix
      ref_for hex request payload given relative =
          infer_mime_type lib request.artifact_type request.relative_path request.mime_type
          >>= λ mime. make_ref (record {
            artifact_id =
                or_else given
                  (new_artifact_id (codes "artifact") (type_prefix request.artifact_type) hex);
            artifact_type = request.artifact_type;
            relative_path = relative;
            sha256 = fs.sha256 payload;
            size_bytes = length payload;
            mime_type = some mime;
            hash_algorithm = HashAlgorithm.sha256;
          })

      -- Containment is confirmed again after the write, and the reference is made.
      confirm : Text → WriteRequest → Text → Option Text → FilePath → Exec Exc fs.World ArtifactRef
      unfolding relative_to_data_dir ref_for
      confirm hex request payload given target w = (
        relative_to_data_dir fs root (fs.resolve target w) w >>= ref_for hex request payload given,
        w,
      )

      unfoldable pub write_bytes : Text → WriteRequest → Text → Exec Exc fs.World ArtifactRef
      unfolding assert_safe_relative_path validate_id scan_no_symlinks ensure_parent_dir
          exclusive_write confirm last_part
      write_bytes hex request payload =
          Exec.◌>>=◌ (lift (assert_safe_relative_path request.relative_path)) (λ rel.
            Exec.◌>>=◌ (lift (validate_id request.artifact_id)) (λ given.
              Exec.◌>>◌ (λ w. (scan_no_symlinks fs root rel.parts w, w))
                (Exec.◌>>=◌ (ensure_parent_dir fs root rel) (λ parent.
                  Exec.◌>>◌ (exclusive_write (child parent (last_part rel.parts)) payload)
                    (confirm hex request payload given (child parent (last_part rel.parts)))))))

      unfoldable pub write_text : Codec → Text → WriteRequest → Text → Exec Exc fs.World ArtifactRef
      unfolding write_bytes or_raise
      write_text codec hex request text =
          Exec.◌>>=◌
            (lift (
              or_raise (store_error (codes "artifact text could not be encoded"))
                (codec.encode_text text)))
            (write_bytes hex request)

      unfoldable pub write_json : Codec → Text → WriteRequest → Json → Exec Exc fs.World ArtifactRef
      unfolding write_bytes json_data
      write_json codec hex request payload =
          Exec.◌>>=◌ (lift (json_data (codec.encode_json payload))) (write_bytes hex request)
