-- ===== src/Persistence/Repositories/Profiles.antt =====
-- `ProfileRepository`
use sight_stalker.Prelude.{
  ℕ, Bool, true, ◌||◌, List, Option, none, some, Text, codes, Outcome, raised, not, ◌>>=◌, ◌>>◌,
}
use sight_stalker.Errors.{Exc}
use sight_stalker.Exec
use sight_stalker.Exec.{Exec, lift}
use sight_stalker.Models.Paths.{FilePath}
use sight_stalker.Models.Records.{ProfileRecord}
use sight_stalker.Persistence.Stored.{JsonLibrary}
use sight_stalker.Persistence.Rows.{Timestamped, ProfileValues}
use sight_stalker.Persistence.Rows.Read.{profile_from_row}
use sight_stalker.Persistence.Rows.Write.{profile_to_row_values}
use sight_stalker.Persistence.Repositories.{
  Database, check_limit, flush, new_row, changed_row, each, or_not_found, on_found, newest_first,
  not_found,
}

-- `resolve` is `Path.resolve`.
module _ (json : JsonLibrary) (database : Database json) (resolve : FilePath → FilePath)
    (data_dir : FilePath) where
  -- `add` or new attributes, `flush`, and the record of the row.
  save_profile : Timestamped ProfileValues → Exec Exc database.Db ProfileRecord
  unfolding flush profile_from_row
  save_profile row =
      Exec.◌>>◌ (λ db. flush db (database.profiles.save row db))
        (lift (profile_from_row resolve data_dir row))

  unfoldable pub create : ProfileRecord → Exec Exc database.Db ProfileRecord
  unfolding profile_to_row_values save_profile
  create profile =
      Exec.◌>>=◌ (lift (profile_to_row_values resolve data_dir profile))
        (λ values. save_profile (new_row profile.created_at values))

  unfoldable pub get : Text → database.Db → Outcome Exc (Option ProfileRecord)
  unfolding on_found profile_from_row
  get profile_id db =
      on_found (database.profiles.find profile_id db) (profile_from_row resolve data_dir)

  unfoldable pub require : Text → database.Db → Outcome Exc ProfileRecord
  unfolding get or_not_found
  require profile_id db = get profile_id db >>= or_not_found (codes "profile not found")

  unfoldable pub list : Bool → Option ℕ → database.Db → Outcome Exc (List ProfileRecord)
  unfolding check_limit each newest_first profile_from_row
  list include_archived limit db =
      check_limit limit
      >> each (profile_from_row resolve data_dir) (
          database.profiles.select (λ row. include_archived || not row.values.archived)
            (newest_first (λ v. v.profile_id)) limit db)

  archive_row : ℕ → Option (Timestamped ProfileValues) → Exec Exc database.Db ProfileRecord
  unfolding save_profile
  archive_row now none = lift (raised (not_found (codes "profile not found")))
  archive_row now (some row) =
      save_profile (changed_row now (record row.values { archived = true }) row)

  unfoldable pub archive : ℕ → Text → Exec Exc database.Db ProfileRecord
  unfolding archive_row
  archive now profile_id db = archive_row now (database.profiles.find profile_id db) db
