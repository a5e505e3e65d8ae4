-- ===== src/Persistence/Repositories/Sessions/Created.antt =====
-- A session that is created is found again.
use sight_stalker.Prelude.{◌≡◌, sym, ap, ◌∙◌, true, Option, some, ok, bind-ok, ok_injective}
use mathlib.Core.Path.{subst}
use sight_stalker.Exec.{continue-ok, lift}
use sight_stalker.Models.Artifacts.{ArtifactRef}
use sight_stalker.Models.Records.{SessionRecord}
use sight_stalker.Security.Redaction.{TextLibrary}
use sight_stalker.Persistence.Stored.{JsonLibrary}
use sight_stalker.Persistence.Config.Encodable.{has_finite_scale}
use sight_stalker.Persistence.Rows.{Timestamped, SessionValues}
use sight_stalker.Persistence.Rows.Read.{session_from_row}
use sight_stalker.Persistence.Rows.Sessions.{new_session, session_from_row-new}
use sight_stalker.Persistence.Rows.Write.{session_to_row_values, ref_id}
use sight_stalker.Persistence.Repositories.{Database, new_row, flush}
use sight_stalker.Persistence.Repositories.Artifacts.{ref_for}
use sight_stalker.Persistence.Repositories.Sessions.{rehydrate, save_session, get, create}
use sight_stalker.Persistence.Repositories.Sessions.Stored.{
  SessionTableLaws, creating, written_id, run_write, run_write-get,
}

module _ (json : JsonLibrary) (database : Database json) where
  rehydrate-ok :
      (row : Timestamped (SessionValues json)) (back : SessionRecord) (db : database.Db)
      → rehydrate json database db row ≡ ok back
      → (initial : Option ArtifactRef) × (final : Option ArtifactRef) × ref_for json database
            row.values.latest_initial_artifact_id db
          ≡ ok initial
        × ref_for json database row.values.latest_final_artifact_id db ≡ ok final
        × session_from_row json row initial final ≡ ok back
  unfolding rehydrate
  rehydrate-ok row back db h =
      let (initial, first, h1) =
        bind-ok (ref_for json database row.values.latest_initial_artifact_id db) _ back h in
      let (final, second, read) =
        bind-ok (ref_for json database row.values.latest_final_artifact_id db) _ back h1 in
      (initial, final, first, second, read)

  save_session-ok :
      (row : Timestamped (SessionValues json)) (back : SessionRecord) (db after : database.Db)
      → save_session json database row db ≡ (ok back, after)
      → rehydrate json database after row ≡ ok back
  unfolding save_session
  save_session-ok row back db after h =
      let (_, done, last) = continue-ok (flush db (database.sessions.save row db)) _ back after h in
      subst (λ d. rehydrate json database d row ≡ ok back) (ap (λ r. r.1) last) (ap (λ r. r.0) last)

  -- When `create` returns a record of a session whose scale factor is finite, then `get` finds that record in the
  -- database after it, and the record is the session given, but for these fields: it was never updated, its name is
  -- stripped, its configuration has lost the order of the headers and the user agent of the fingerprint, and its latest
  -- states are the references that the database holds under the identifiers of those given.
  pub create-get :
      (lib : TextLibrary) (session back : SessionRecord) (db after : database.Db)
      → SessionTableLaws json database
      → has_finite_scale json session.config ≡ true
      → create json database lib session db ≡ (ok back, after)
      → get json database session.session_id after ≡ ok (some back)
        × (initial : Option ArtifactRef) × (final : Option ArtifactRef) × ref_for json database
              (ref_id session.latest_initial_state)
              after
            ≡ ok initial
        × ref_for json database (ref_id session.latest_final_state) after ≡ ok final
        × back ≡ new_session lib json session initial final
  unfolding create run_write written_id
  create-get lib session back db after laws finite h =
      let (v, made, saved) =
        continue-ok (lift (session_to_row_values lib json session) db) _ back after h in
      let row = new_row session.created_at v in
      let (initial, final, first, second, read) =
        rehydrate-ok row back after (save_session-ok row back db after saved) in
      let (same, id1, id2) = session_from_row-new lib json session v initial final finite made in
      (
        run_write-get json database laws lib (creating session) back db after h,
        initial,
        final,
        ap (λ id. ref_for json database id after) (sym id1) ∙ first,
        ap (λ id. ref_for json database id after) (sym id2) ∙ second,
        ok_injective _ _ (sym read ∙ same),
      )
