-- ===== src/Models/Artifacts.antt =====
-- models/artifacts.py: the reference to an artifact file.
use sight_stalker.Prelude.{ℕ, Option, Text}
use sight_stalker.Models.Paths.{FilePath}
use sight_stalker.Models.Identifiers.{ArtifactType, HashAlgorithm}

pub record ArtifactRef : Type 0 where
  pub artifact_id : Text
  pub artifact_type : ArtifactType
  pub relative_path : FilePath
  pub sha256 : Text
  pub size_bytes : ℕ
  pub mime_type : Option Text
  pub hash_algorithm : HashAlgorithm
