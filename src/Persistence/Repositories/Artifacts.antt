-- ===== src/Persistence/Repositories/Artifacts.antt =====
-- `ArtifactRepository`
use sight_stalker.Prelude.{
  ℕ, suc, Bool, ◌&&◌, ◌||◌, List, Option, none, some, Text, codes, Outcome, ok, raised, ltb, nat_eq,
  is_some, not, ◌==◌, text_eq, option_eq, if◌then◌else◌, ◌>>=◌, ◌>>◌,
}
use sight_stalker.Errors.{Exc}
use sight_stalker.Exec
use sight_stalker.Exec.{Exec, lift}
use sight_stalker.Models.Artifacts.{ArtifactRef}
use sight_stalker.Models.Identifiers.{ArtifactType}
use sight_stalker.Models.Literals.{artifact_type_text}
use sight_stalker.Persistence.Stored.{JsonLibrary, integrity_error}
use sight_stalker.Persistence.Rows.{Timestamped, ArtifactValues}
use sight_stalker.Persistence.Rows.Read.{artifact_ref_from_row}
use sight_stalker.Persistence.Rows.Write.{artifact_ref_to_row_values}
use sight_stalker.Persistence.Repositories.{
  Database, check_limit, flush, new_row, each, or_not_found, on_found, newest_first, oldest_first,
}

-- `run_order.asc()`, where a row without an order stands first.
unfoldable pub order_key : Option ℕ → ℕ
order_key none = 0
order_key (some n) = suc n

unfoldable pub run_order_first : Timestamped ArtifactValues → Timestamped ArtifactValues → Bool
unfolding oldest_first order_key
run_order_first a b =
    ltb (order_key a.values.run_order) (order_key b.values.run_order)
    || (nat_eq (order_key a.values.run_order) (order_key b.values.run_order)
        && oldest_first (λ v. v.artifact_id) a b)

module _ (json : JsonLibrary) (database : Database json) where
  checked_order : Option Text → Option ℕ → Outcome Exc (Unit {0})
  checked_order run_id run_order =
      if is_some run_id && not (is_some run_order)
      then raised (integrity_error (codes "run_order is required when run_id is provided"))
      else ok tt

  unfoldable pub create :
      ℕ → ArtifactRef → Option Text → Option Text → Option ℕ → Exec Exc database.Db ArtifactRef
  unfolding checked_order artifact_ref_to_row_values artifact_ref_from_row flush
  create now ref session_id run_id run_order =
      Exec.◌>>=◌
        (lift (
          checked_order run_id run_order
          >> artifact_ref_to_row_values ref session_id run_id run_order))
        (λ values.
          Exec.◌>>◌ (λ db. flush db (database.artifacts.save (new_row now values) db))
            (lift (artifact_ref_from_row (new_row now values))))

  unfoldable pub get : Text → database.Db → Outcome Exc (Option ArtifactRef)
  unfolding on_found artifact_ref_from_row
  get artifact_id db = on_found (database.artifacts.find artifact_id db) artifact_ref_from_row

  unfoldable pub require : Text → database.Db → Outcome Exc ArtifactRef
  unfolding get or_not_found
  require artifact_id db = get artifact_id db >>= or_not_found (codes "artifact not found")

  unfoldable pub list_for_run : Text → database.Db → Outcome Exc (List ArtifactRef)
  unfolding each artifact_ref_from_row run_order_first option_eq text_eq
  list_for_run run_id db =
      each artifact_ref_from_row (
        database.artifacts.select (λ row. row.values.run_id == some run_id) run_order_first none db)

  unfoldable pub list_for_session : Text → Option ℕ → database.Db → Outcome Exc (List ArtifactRef)
  unfolding check_limit each artifact_ref_from_row newest_first option_eq text_eq
  list_for_session session_id limit db =
      check_limit limit
      >> each artifact_ref_from_row (
          database.artifacts.select (λ row. row.values.session_id == some session_id)
            (newest_first (λ v. v.artifact_id)) limit db)

  unfoldable pub list_by_type :
      ArtifactType → Option ℕ → database.Db → Outcome Exc (List ArtifactRef)
  unfolding check_limit each artifact_ref_from_row newest_first artifact_type_text text_eq
  list_by_type artifact_type limit db =
      check_limit limit
      >> each artifact_ref_from_row (
          database.artifacts.select
            (λ row. row.values.artifact_type == artifact_type_text artifact_type)
            (newest_first (λ v. v.artifact_id)) limit db)

  -- `_ref_for` of the other repositories
  unfoldable pub ref_for : Option Text → database.Db → Outcome Exc (Option ArtifactRef)
  unfolding on_found artifact_ref_from_row
  ref_for none db = ok none
  ref_for (some artifact_id) db =
      on_found (database.artifacts.find artifact_id db) artifact_ref_from_row
