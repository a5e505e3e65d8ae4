-- ===== src/Artifacts/Manager/Documents.antt =====
-- `write_json` and `read_json`.
use sight_stalker.Prelude.{◌≡◌, ap, ◌∙◌, some, Text, codes, ok, ◌>>=◌}
use sight_stalker.Exec.{continue-ok, lift}
use sight_stalker.Models.Artifacts.{ArtifactRef}
use sight_stalker.Models.Json.{Json}
use sight_stalker.Models.Paths.{FilePath}
use sight_stalker.Security.Redaction.{TextLibrary}
use sight_stalker.Artifacts.FileSystem.{FileSystem, FileSystemLaws}
use sight_stalker.Artifacts.Mime.{artifact_integrity_error}
use sight_stalker.Artifacts.Manager.{
  Codec, Encoded, encoded, invalid_value, not_serializable, json_data, WriteRequest, or_raise,
  write_json, read_json,
}
use sight_stalker.Artifacts.Manager.Roundtrip.{write_bytes-read_bytes, write_bytes-type}

json_data-ok : (o : Encoded) (raw : Text) → json_data o ≡ ok raw → o ≡ encoded raw
unfolding json_data
json_data-ok (encoded bytes) raw h = cc
json_data-ok invalid_value raw h = cc
json_data-ok (not_serializable e) raw h = cc

module _ (fs : FileSystem) (laws : FileSystemLaws fs) (root : FilePath) (codec : Codec) where
  -- What is written was encoded, and the reference reads back whatever the bytes decode to.
  pub write_json-read_json :
      (lib : TextLibrary) (hex : Text) (request : WriteRequest) (payload : Json) (w v : fs.World)
      (ref : ArtifactRef)
      → write_json fs root lib codec hex request payload w ≡ (ok ref, v)
      → (raw : Text) × codec.encode_json payload ≡ encoded raw
        × ((j : Json) → codec.decode_json raw ≡ some j → read_json fs root codec ref v ≡ ok j)
        × ref.artifact_type ≡ request.artifact_type
  unfolding write_json read_json or_raise
  write_json-read_json lib hex request payload w v ref h =
      let (raw, given, written) =
        continue-ok (lift (json_data (codec.encode_json payload)) w) _ ref v h in
      let back = write_bytes-read_bytes fs laws root lib hex request raw w v ref written in
      (
        raw,
        json_data-ok (codec.encode_json payload) raw given,
        λ j decoded.
            ap
              (λ o. o >>= λ bytes.
                or_raise (artifact_integrity_error (codes "artifact JSON is invalid"))
                  (codec.decode_json bytes))
              back
            ∙ ap (or_raise _) decoded,
        write_bytes-type fs laws root lib hex request raw w v ref written,
      )
