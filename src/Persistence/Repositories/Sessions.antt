-- ===== src/Persistence/Repositories/Sessions.antt =====
-- `SessionRepository`
pub mod Stored
pub mod Created
use sight_stalker.Prelude.{
  ℕ, Bool, true, false, ◌||◌, ◌&&◌, List, Option, none, some, Text, codes, Outcome, ok, raised, not,
  ◌==◌, text_eq, if◌then◌else◌, ◌>>=◌, ◌>>◌,
}
use sight_stalker.Errors.{Exc}
use sight_stalker.Exec
use sight_stalker.Exec.{Exec, lift}
use sight_stalker.Models.Artifacts.{ArtifactRef}
use sight_stalker.Models.Records.{SessionRecord}
use sight_stalker.Security.Redaction.{TextLibrary}
use sight_stalker.Persistence.Stored.{JsonLibrary}
use sight_stalker.Persistence.Rows.{Timestamped, SessionValues}
use sight_stalker.Persistence.Rows.Read.{session_from_row}
use sight_stalker.Persistence.Rows.Write.{session_to_row_values, ref_id}
use sight_stalker.Persistence.Repositories.{
  Database, check_limit, flush, new_row, changed_row, each, or_not_found, on_found, newest_first,
  not_found,
}
use sight_stalker.Persistence.Repositories.Artifacts.{ref_for}

module _ (json : JsonLibrary) (database : Database json) where
  -- `_rehydrate`
  unfoldable pub rehydrate :
      database.Db → Timestamped (SessionValues json) → Outcome Exc SessionRecord
  unfolding ref_for session_from_row
  rehydrate db row = ref_for json database row.values.latest_initial_artifact_id db >>= λ initial.
      ref_for json database row.values.latest_final_artifact_id db >>= λ final.
      session_from_row json row initial final

  -- `add` or new attributes, `flush`, and the record of the row.
  save_session : Timestamped (SessionValues json) → Exec Exc database.Db SessionRecord
  unfolding flush rehydrate
  save_session row =
      Exec.◌>>◌ (λ db. flush db (database.sessions.save row db)) (λ db. (rehydrate db row, db))

  unfoldable pub get : Text → database.Db → Outcome Exc (Option SessionRecord)
  unfolding on_found rehydrate
  get session_id db = on_found (database.sessions.find session_id db) (rehydrate db)

  unfoldable pub require : Text → database.Db → Outcome Exc SessionRecord
  unfolding get or_not_found
  require session_id db = get session_id db >>= or_not_found (codes "session not found")

  unfoldable pub list_for_profile :
      Text → Bool → Option ℕ → database.Db → Outcome Exc (List SessionRecord)
  unfolding check_limit each newest_first rehydrate text_eq
  list_for_profile profile_id include_archived limit db =
      check_limit limit
      >> each (rehydrate db) (
          database.sessions.select
            (λ row.
              row.values.profile_id == profile_id && (include_archived || not row.values.archived))
            (newest_first (λ v. v.session_id)) limit db)

  -- The row with new attributes, where there is one.
  change_row :
      ℕ
      → Option (Timestamped (SessionValues json))
      → (SessionValues json → Outcome Exc (SessionValues json))
      → Exec Exc database.Db SessionRecord
  unfolding save_session
  change_row now none change = lift (raised (not_found (codes "session not found")))
  change_row now (some row) change =
      Exec.◌>>=◌ (lift (change row.values)) (λ values. save_session (changed_row now values row))

  -- The attributes that `set_latest_artifacts` sets
  with_latest : Option ArtifactRef → Option ArtifactRef → SessionValues json → SessionValues json
  unfolding ref_id
  with_latest latest_initial latest_final values = record values {
    latest_initial_artifact_id = ref_id latest_initial;
    latest_final_artifact_id = ref_id latest_final;
  }

  unfoldable pub set_latest_artifacts :
      ℕ → Text → Option ArtifactRef → Option ArtifactRef → Exec Exc database.Db SessionRecord
  unfolding change_row with_latest
  set_latest_artifacts now session_id latest_initial latest_final db =
      change_row now (database.sessions.find session_id db)
        (λ values. ok (with_latest latest_initial latest_final values)) db

  unfoldable pub archive : ℕ → Text → Exec Exc database.Db SessionRecord
  unfolding change_row
  archive now session_id db =
      change_row now (database.sessions.find session_id db)
        (λ values. ok (record values { archived = true })) db

  module _ (lib : TextLibrary) where
    unfoldable pub create : SessionRecord → Exec Exc database.Db SessionRecord
    unfolding session_to_row_values save_session
    create session =
        Exec.◌>>=◌ (lift (session_to_row_values lib json session))
          (λ values. save_session (new_row session.created_at values))

    unfoldable pub update : ℕ → SessionRecord → Exec Exc database.Db SessionRecord
    unfolding change_row session_to_row_values
    update now session db =
        change_row now (database.sessions.find session.session_id db)
          (λ _. session_to_row_values lib json session) db
