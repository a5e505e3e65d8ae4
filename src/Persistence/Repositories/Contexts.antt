-- ===== src/Persistence/Repositories/Contexts.antt =====
-- `BrowserContextRepository`
use sight_stalker.Prelude.{
  ℕ, List, Option, none, some, Text, codes, Outcome, raised, ◌==◌, text_eq, ◌>>=◌, ◌>>◌,
}
use sight_stalker.Errors.{Exc}
use sight_stalker.Exec
use sight_stalker.Exec.{Exec, lift}
use sight_stalker.Models.Records.{BrowserContextRecord}
use sight_stalker.Persistence.Stored.{JsonLibrary}
use sight_stalker.Persistence.Rows.{Timestamped, ContextValues}
use sight_stalker.Persistence.Rows.Read.{context_from_row}
use sight_stalker.Persistence.Rows.Write.{context_to_row_values}
use sight_stalker.Persistence.Repositories.{
  Database, check_limit, flush, new_row, changed_row, each, or_not_found, on_found, oldest_first,
  not_found,
}
use sight_stalker.Persistence.Repositories.Artifacts.{ref_for}

module _ (json : JsonLibrary) (database : Database json) where
  -- `_rehydrate`
  context_of_row : database.Db → Timestamped ContextValues → Outcome Exc BrowserContextRecord
  unfolding ref_for context_from_row
  context_of_row db row =
      ref_for json database row.values.initial_storage_artifact_id db >>= λ initial.
      ref_for json database row.values.final_storage_artifact_id db >>= λ final.
      context_from_row row initial final

  save_context : Timestamped ContextValues → Exec Exc database.Db BrowserContextRecord
  unfolding flush context_of_row
  save_context row =
      Exec.◌>>◌ (λ db. flush db (database.contexts.save row db)) (λ db. (context_of_row db row, db))

  unfoldable pub create : BrowserContextRecord → Exec Exc database.Db BrowserContextRecord
  unfolding context_to_row_values save_context
  create context =
      Exec.◌>>=◌ (lift (context_to_row_values context))
        (λ values. save_context (new_row context.created_at values))

  unfoldable pub get : Text → database.Db → Outcome Exc (Option BrowserContextRecord)
  unfolding on_found context_of_row
  get context_id db = on_found (database.contexts.find context_id db) (context_of_row db)

  unfoldable pub require : Text → database.Db → Outcome Exc BrowserContextRecord
  unfolding get or_not_found
  require context_id db = get context_id db >>= or_not_found (codes "browser context not found")

  unfoldable pub list_for_run :
      Text → Option ℕ → database.Db → Outcome Exc (List BrowserContextRecord)
  unfolding check_limit each oldest_first context_of_row text_eq
  list_for_run run_id limit db =
      check_limit limit
      >> each (context_of_row db) (
          database.contexts.select (λ row. row.values.run_id == run_id)
            (oldest_first (λ v. v.context_id)) limit db)

  update_row :
      ℕ
      → BrowserContextRecord
      → Option (Timestamped ContextValues)
      → Exec Exc database.Db BrowserContextRecord
  unfolding context_to_row_values save_context
  update_row now context none = lift (raised (not_found (codes "browser context not found")))
  update_row now context (some row) =
      Exec.◌>>=◌ (lift (context_to_row_values context))
        (λ values. save_context (changed_row now values row))

  unfoldable pub update : ℕ → BrowserContextRecord → Exec Exc database.Db BrowserContextRecord
  unfolding update_row
  update now context db = update_row now context (database.contexts.find context.context_id db) db
