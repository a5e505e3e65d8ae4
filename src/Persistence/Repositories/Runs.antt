-- ===== src/Persistence/Repositories/Runs.antt =====
-- `RunRepository`
use sight_stalker.Prelude.{
  ℕ, List, Option, none, some, Text, codes, Outcome, raised, ◌==◌, text_eq, ◌>>=◌, ◌>>◌,
}
use sight_stalker.Errors.{Exc}
use sight_stalker.Exec
use sight_stalker.Exec.{Exec, lift}
use sight_stalker.Models.Records.{RunRecord}
use sight_stalker.Security.Redaction.{TextLibrary}
use sight_stalker.Persistence.Stored.{JsonLibrary}
use sight_stalker.Persistence.Rows.{Timestamped, RunValues}
use sight_stalker.Persistence.Rows.Read.{run_from_row}
use sight_stalker.Persistence.Rows.Write.{UrlParts, run_to_row_values}
use sight_stalker.Persistence.Repositories.{
  Database, check_limit, flush, new_row, changed_row, each, or_not_found, on_found, newest_first,
  not_found,
}
use sight_stalker.Persistence.Repositories.Artifacts.{list_for_run}

module _ (json : JsonLibrary) (database : Database json) where
  -- `_artifacts_for_run` and `run_from_row`
  run_of_row : database.Db → Timestamped (RunValues json) → Outcome Exc RunRecord
  unfolding list_for_run run_from_row
  run_of_row db row = list_for_run json database row.values.run_id db >>= run_from_row json row

  save_run : Timestamped (RunValues json) → Exec Exc database.Db RunRecord
  unfolding flush run_of_row
  save_run row =
      Exec.◌>>◌ (λ db. flush db (database.runs.save row db)) (λ db. (run_of_row db row, db))

  unfoldable pub get : Text → database.Db → Outcome Exc (Option RunRecord)
  unfolding on_found run_of_row
  get run_id db = on_found (database.runs.find run_id db) (run_of_row db)

  unfoldable pub require : Text → database.Db → Outcome Exc RunRecord
  unfolding get or_not_found
  require run_id db = get run_id db >>= or_not_found (codes "run not found")

  unfoldable pub list_for_session : Text → Option ℕ → database.Db → Outcome Exc (List RunRecord)
  unfolding check_limit each newest_first run_of_row text_eq
  list_for_session session_id limit db =
      check_limit limit
      >> each (run_of_row db) (
          database.runs.select (λ row. row.values.session_id == session_id)
            (newest_first (λ v. v.run_id)) limit db)

  module _ (lib : TextLibrary) (urlsplit : Text → Option UrlParts) where
    unfoldable pub create : RunRecord → Exec Exc database.Db RunRecord
    unfolding run_to_row_values save_run
    create run =
        Exec.◌>>=◌ (lift (run_to_row_values lib json urlsplit run))
          (λ values. save_run (new_row run.created_at values))

    update_row :
        ℕ → RunRecord → Option (Timestamped (RunValues json)) → Exec Exc database.Db RunRecord
    unfolding run_to_row_values save_run
    update_row now run none = lift (raised (not_found (codes "run not found")))
    update_row now run (some row) =
        Exec.◌>>=◌ (lift (run_to_row_values lib json urlsplit run))
          (λ values. save_run (changed_row now values row))

    unfoldable pub update : ℕ → RunRecord → Exec Exc database.Db RunRecord
    unfolding update_row
    update now run db = update_row now run (database.runs.find run.run_id db) db
