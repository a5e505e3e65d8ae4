-- ===== src/Persistence/Repositories/Health.antt =====
-- `HealthRepository`
use sight_stalker.Prelude.{
  ℕ, Bool, ◌||◌, ◌&&◌, List, [], ◌∷◌, Option, none, some, Text, Outcome, ◌==◌, text_eq, ltb, leb,
  nat_eq, ◌>>◌,
}
use sight_stalker.Errors.{Exc}
use sight_stalker.Exec
use sight_stalker.Exec.{Exec, lift}
use sight_stalker.Models.Records.{SessionHealthRecord}
use sight_stalker.Security.Redaction.{TextLibrary}
use sight_stalker.Persistence.Stored.{JsonLibrary}
use sight_stalker.Persistence.Rows.{to_utc}
use sight_stalker.Persistence.Rows.Read.{health_from_row}
use sight_stalker.Persistence.Rows.Write.{health_to_row_values}
use sight_stalker.Persistence.Repositories.{
  Database, HealthRow, check_limit, flush, new_row, each, on_found,
}

-- `created_at.desc(), id.desc()`
unfoldable pub latest_first : HealthRow → HealthRow → Bool
unfolding to_utc
latest_first a b =
    ltb (to_utc b.row.created_at) (to_utc a.row.created_at)
    || (nat_eq (to_utc a.row.created_at) (to_utc b.row.created_at) && leb b.id a.id)

-- `.first()`
first_row : List HealthRow → Option HealthRow
first_row [] = none
first_row (row ∷ rows) = some row

module _ (json : JsonLibrary) (database : Database json) where
  unfoldable pub latest_for_session : Text → database.Db → Outcome Exc (Option SessionHealthRecord)
  unfolding first_row latest_first on_found health_from_row text_eq
  latest_for_session session_id db =
      on_found
        (first_row (
          database.select_health (λ h. h.row.values.session_id == session_id) latest_first (some 1)
            db))
        (λ h. health_from_row h.row)

  unfoldable pub list_for_session :
      Text → Option ℕ → database.Db → Outcome Exc (List SessionHealthRecord)
  unfolding check_limit each latest_first health_from_row text_eq
  list_for_session session_id limit db =
      check_limit limit
      >> each (λ h. health_from_row h.row)
          (database.select_health (λ h. h.row.values.session_id == session_id) latest_first limit
            db)

  unfoldable pub create :
      TextLibrary → SessionHealthRecord → Exec Exc database.Db SessionHealthRecord
  unfolding health_to_row_values flush health_from_row
  create lib health = Exec.◌>>=◌ (lift (health_to_row_values lib health)) (λ values.
      Exec.◌>>◌ (λ db. flush db (database.add_health (new_row health.created_at values) db))
        (lift (health_from_row (new_row health.created_at values))))
