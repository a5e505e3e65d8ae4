-- ===== src/Sessions/StateStore/Tests.antt =====
-- One state, written and read.
use sight_stalker.Prelude.{[], ◌∷◌, some, none, codes, false}
use sight_stalker.Models.Artifacts.{ArtifactRef}
use sight_stalker.Models.Identifiers.{storage_state_initial, HashAlgorithm}
use sight_stalker.Security.Fixture.{plain_library}
use sight_stalker.Artifacts.Fixture.{files, Files, data_dir, digest}
use sight_stalker.Sessions.StateStore.{write_state}
use sight_stalker.Sessions.StateStore.Fixture.{cookie_state, dump_codec}

abbrev no_files : Files
no_files = λ _. none

abbrev state_ref : ArtifactRef
state_ref = record {
  artifact_id = codes "art_init_0011223344556677";
  artifact_type = storage_state_initial;
  relative_path = record {
    absolute = false;
    parts =
        codes "profiles"
        ∷ codes "prof_00000000"
        ∷ codes "runs"
        ∷ codes "run_00000000"
        ∷ codes "storage_state.initial.json"
        ∷ [];
  };
  sha256 = digest;
  size_bytes = 2;
  mime_type = some (codes "application/json");
  hash_algorithm = HashAlgorithm.sha256;
}

abbrev after_state : Files
after_state =
    (write_state files data_dir dump_codec plain_library (codes "0011223344556677")
      (codes "prof_00000000") (codes "run_00000000") cookie_state storage_state_initial no_files).1
