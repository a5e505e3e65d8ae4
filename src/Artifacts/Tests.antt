-- ===== src/Artifacts/Tests.antt =====
-- artifacts/ on one tree.
use sight_stalker.Prelude.{◌≡◌, refl, true, false, [], ◌∷◌, none, some, codes, ok, text_eq, is_some}
use sight_stalker.Models.Artifacts.{ArtifactRef}
use sight_stalker.Models.Identifiers.{ArtifactType, HashAlgorithm}
use sight_stalker.Models.Paths.{FilePath, path_eq, relative_to, descend}
use sight_stalker.Security.Fixture.{plain_library}
use sight_stalker.Artifacts.FileSystem.{contents}
use sight_stalker.Artifacts.Paths.{resolve_relative_path}
use sight_stalker.Artifacts.Paths.Containment.{
  LinkFree, is_confined, resolve_relative_path-contained,
}
use sight_stalker.Artifacts.Manager.{WriteRequest, write_bytes, read_bytes}
use sight_stalker.Artifacts.Manager.Roundtrip.{write_bytes-read_bytes}
use sight_stalker.Artifacts.Manager.Preserves.{write_bytes-preserves}
use sight_stalker.Artifacts.Fixture.{
  files, Files, update, normal, there, create_file, data_dir, read_file, digest,
}
use sight_stalker.Artifacts.Fixture.Laws.{files_laws}

abbrev old_path : FilePath
old_path = record { absolute = true; parts = codes "data" ∷ codes "old.json" ∷ [] }

-- One file is there.
abbrev one_file : Files
one_file = update old_path (some (codes "{}")) (λ _. none)

abbrev request : WriteRequest
request = record {
  relative_path = record { absolute = false; parts = codes "shot.png" ∷ [] };
  artifact_type = ArtifactType.screenshot;
  artifact_id = some (codes "art_shot_00000000");
  mime_type = none;
}

abbrev shot_ref : ArtifactRef
shot_ref = record {
  artifact_id = codes "art_shot_00000000";
  artifact_type = ArtifactType.screenshot;
  relative_path = record { absolute = false; parts = codes "shot.png" ∷ [] };
  sha256 = digest;
  size_bytes = 3;
  mime_type = some (codes "image/png");
  hash_algorithm = HashAlgorithm.sha256;
}

abbrev after : Files
after =
    (write_bytes files data_dir plain_library (codes "0011223344556677") request (codes "abc")
      one_file).1

written_shot :
    write_bytes files data_dir plain_library
      (codes "0011223344556677")
      request
      (codes "abc")
      one_file
    ≡ (ok shot_ref, after)
unfolding write_bytes path_eq text_eq normal update read_file there create_file
written_shot = refl

write_bytes-read_bytes_example : read_bytes files data_dir shot_ref after ≡ ok (codes "abc")
write_bytes-read_bytes_example =
    write_bytes-read_bytes files files_laws data_dir plain_library (codes "0011223344556677")
      request (codes "abc") one_file after shot_ref written_shot

write_bytes-preserves_example : files.read old_path after ≡ contents (codes "{}")
unfolding read_file normal update path_eq
write_bytes-preserves_example =
    write_bytes-preserves files files_laws old_path (codes "{}") data_dir plain_library
      (codes "0011223344556677") request (codes "abc") one_file refl

found_shot :
    resolve_relative_path files data_dir request.relative_path one_file
    ≡ ok (descend data_dir request.relative_path.parts)
unfolding resolve_relative_path normal path_eq text_eq
found_shot = refl

resolve_relative_path-contained_example :
    is_some (relative_to (descend data_dir request.relative_path.parts) data_dir) ≡ true
    × descend data_dir request.relative_path.parts
      ≡ files.resolve (descend data_dir request.relative_path.parts) one_file
    × LinkFree files data_dir request.relative_path.parts one_file
    × is_confined request.relative_path.parts ≡ true
resolve_relative_path-contained_example =
    resolve_relative_path-contained files data_dir request.relative_path
      (descend data_dir request.relative_path.parts) one_file found_shot
