-- ===== src/Persistence/Repositories/Sessions/Stored.antt =====
-- The repository of sessions as a map from identifiers: what a write returns is what is read afterwards.
use sight_stalker.Prelude.{
  ◌≡◌, refl, sym, ap, ◌∙◌, ℕ, Option, none, some, Text, codes, Outcome, ok, ◌>>=◌, bind-ok,
  ok_injective,
}
use mathlib.Core.Path.{subst}
use sight_stalker.Errors.{Exc}
use sight_stalker.Exec.{Exec, continue-ok, lift}
use sight_stalker.Models.Artifacts.{ArtifactRef}
use sight_stalker.Models.Identifiers.{session_prefix, profile_prefix}
use sight_stalker.Models.Json.{object}
use sight_stalker.Models.Records.{SessionRecord}
use sight_stalker.Security.Redaction.{TextLibrary}
use sight_stalker.Persistence.Stored.{JsonLibrary, canonical_json}
use sight_stalker.Persistence.Config.{persistable_session_config}
use sight_stalker.Persistence.Rows.{Timestamped, SessionValues, require}
use sight_stalker.Persistence.Rows.Sessions.{require-valid}
use sight_stalker.Persistence.Rows.Write.{session_to_row_values, stripped_name}
use sight_stalker.Persistence.Repositories.{
  Database, Flushed, flushed, violated, broken, flush, new_row, changed_row, on_found,
}
use sight_stalker.Persistence.Repositories.Sessions.{
  rehydrate, save_session, get, change_row, with_latest, set_latest_artifacts, archive, create,
  update,
}

-- What the table of the sessions promises: a row that is written is found under its key, and is the only one there.
pub record SessionTableLaws (json : JsonLibrary) (database : Database json) : Type 0 where
  pub find-save :
      (row : Timestamped (SessionValues json)) (db after : database.Db)
      → database.sessions.save row db ≡ flushed after
      → database.sessions.find row.values.session_id after ≡ some row
  pub find-key :
      (session_id : Text) (row : Timestamped (SessionValues json)) (db : database.Db)
      → database.sessions.find session_id db ≡ some row
      → row.values.session_id ≡ session_id

-- The writes, and the session that each is about.
pub data SessionWrite : Type 0 where
  creating : SessionRecord → SessionWrite
  updating : ℕ → SessionRecord → SessionWrite
  setting_latest : ℕ → Text → Option ArtifactRef → Option ArtifactRef → SessionWrite
  archiving : ℕ → Text → SessionWrite

unfoldable pub written_id : SessionWrite → Text
written_id (creating session) = session.session_id
written_id (updating now session) = session.session_id
written_id (setting_latest now session_id initial final) = session_id
written_id (archiving now session_id) = session_id

session_to_row_values-id :
    (lib : TextLibrary) (json : JsonLibrary) (session : SessionRecord) (v : SessionValues json)
    → session_to_row_values lib json session ≡ ok v
    → v.session_id ≡ session.session_id
unfolding session_to_row_values
session_to_row_values-id lib json session v h =
    let (session_id, e1, h1) =
      bind-ok (require session_prefix session.session_id (codes "SessionId")) _ v h in
    let (profile_id, e2, h2) =
      bind-ok (require profile_prefix session.profile_id (codes "ProfileId")) _ v h1 in
    let (name, e3, h3) =
      bind-ok (stripped_name (codes "session name must not be empty") session.name) _ v h2 in
    let (projection, e4, h4) = bind-ok (persistable_session_config lib session.config) _ v h3 in
    let (config_json, e5, h5) = bind-ok (canonical_json json (object projection)) _ v h4 in
    let (same, _) =
      require-valid session_prefix session.session_id (codes "SessionId") session_id e1 in
    sym (ap (λ u. u.session_id) (ok_injective _ v h5)) ∙ same

module _ (json : JsonLibrary) (database : Database json)
    (laws : SessionTableLaws json database) where
  flush-ok :
      (db : database.Db) (s : Flushed database.Db)
      → (flush db s).0 ≡ ok tt
      → s ≡ flushed (flush db s).1
  unfolding flush
  flush-ok db (flushed after) h = refl
  flush-ok db violated h = cc
  flush-ok db (broken e) h = cc

  save_session-get :
      (row : Timestamped (SessionValues json)) (session_id : Text) (record_back : SessionRecord)
      (db after : database.Db)
      → row.values.session_id ≡ session_id
      → save_session json database row db ≡ (ok record_back, after)
      → get json database session_id after ≡ ok (some record_back)
  unfolding save_session get on_found
  save_session-get row session_id record_back db after key h =
      let (_, done, back) =
        continue-ok (flush db (database.sessions.save row db)) _ record_back after h in
      let stored = laws.find-save row db _ (flush-ok db (database.sessions.save row db) done) in
      let place = ap (λ r. r.1) back in
      let found =
        subst (λ d. database.sessions.find row.values.session_id d ≡ some row) place stored in
      let hydrated =
        subst (λ d. rehydrate json database d row ≡ ok record_back) place (ap (λ r. r.0) back) in
      ap (λ o. on_found o (rehydrate json database after))
        (subst (λ k. database.sessions.find k after ≡ some row) key found)
      ∙ ap (λ o. o >>= λ b. ok (some b)) hydrated

  change_row-get :
      (now : ℕ) (o : Option (Timestamped (SessionValues json)))
      (change : SessionValues json → Outcome Exc (SessionValues json)) (session_id : Text)
      (record_back : SessionRecord) (db after : database.Db)
      → ((row : Timestamped (SessionValues json)) (v : SessionValues json)
          → o ≡ some row
          → change row.values ≡ ok v
          → v.session_id ≡ session_id)
      → change_row json database now o change db ≡ (ok record_back, after)
      → get json database session_id after ≡ ok (some record_back)
  unfolding change_row
  change_row-get now none change session_id record_back db after keeps h = cc
  change_row-get now (some row) change session_id record_back db after keeps h =
      let (v, changed, saved) = continue-ok (lift (change row.values) db) _ record_back after h in
      save_session-get (changed_row now v row) session_id record_back db after
        (keeps row v refl changed) saved

  module _ (lib : TextLibrary) where
    unfoldable pub run_write : SessionWrite → Exec Exc database.Db SessionRecord
    unfolding create update set_latest_artifacts archive
    run_write (creating session) = create json database lib session
    run_write (updating now session) = update json database lib now session
    run_write (setting_latest now session_id initial final) =
        set_latest_artifacts json database now session_id initial final
    run_write (archiving now session_id) = archive json database now session_id

    -- When `create`, `update`, `set_latest_artifacts` or `archive` returns a record, `get` of the session's identifier in the
    -- database after it finds exactly that record.
    pub run_write-get :
        (op : SessionWrite) (record_back : SessionRecord) (db after : database.Db)
        → run_write op db ≡ (ok record_back, after)
        → get json database (written_id op) after ≡ ok (some record_back)
    unfolding run_write written_id create update set_latest_artifacts archive with_latest
    run_write-get (creating session) record_back db after h =
        let (v, made, saved) =
          continue-ok (lift (session_to_row_values lib json session) db) _ record_back after h in
        save_session-get (new_row session.created_at v) session.session_id record_back db after
          (session_to_row_values-id lib json session v made) saved
    run_write-get (updating now session) record_back db after h =
        change_row-get now _ _ session.session_id record_back db after
          (λ row v found made. session_to_row_values-id lib json session v made) h
    run_write-get (setting_latest now session_id initial final) record_back db after h =
        change_row-get now _ _ session_id record_back db after
          (λ row v found made.
            sym (ap (λ u. u.session_id) (ok_injective _ v made))
            ∙ laws.find-key session_id row db found)
          h
    run_write-get (archiving now session_id) record_back db after h =
        change_row-get now _ _ session_id record_back db after
          (λ row v found made.
            sym (ap (λ u. u.session_id) (ok_injective _ v made))
            ∙ laws.find-key session_id row db found)
          h
