-- ===== src/Ids/Tests.antt =====
-- Identifiers minted from fixed hex digits.
use sight_stalker.Prelude.{◌≡◌, refl, true, codes}
use sight_stalker.Models.Identifiers.{
  matches_id, artifact_prefix, run_prefix, session_prefix, profile_prefix, context_prefix,
}
use sight_stalker.Ids.{new_artifact_id, new_run_id, new_session_id, new_profile_id, new_context_id}
use sight_stalker.Ids.Pattern.{minted_ids_match}

minted :
    new_artifact_id (codes "artifact") (codes " --my shot!") (codes "0123456789abcdef")
    ≡ codes "art_my_shot__0123456789abcdef"
unfolding new_artifact_id
minted = refl

minted_ids_match_example :
    (matches_id artifact_prefix
        (new_artifact_id (codes "artifact") (codes "shot") (codes "0123456789abcdef"))
      ≡ true)
    × (matches_id artifact_prefix
          (new_artifact_id (codes "state") (codes "shot") (codes "0123456789abcdef"))
        ≡ true)
    × (matches_id run_prefix (new_run_id (codes "0123456789abcdef")) ≡ true)
    × (matches_id session_prefix (new_session_id (codes "0123456789abcdef")) ≡ true)
    × (matches_id profile_prefix (new_profile_id (codes "0123456789abcdef")) ≡ true)
    × (matches_id context_prefix (new_context_id (codes "0123456789ab")) ≡ true)
minted_ids_match_example =
    minted_ids_match (codes "shot") (codes "0123456789abcdef") (codes "0123456789ab") (refl, refl)
      (refl, refl)
