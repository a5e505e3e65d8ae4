-- ===== src/Persistence/Repositories/Fixture.antt =====
-- A database that holds at most one session, for the tests.
use sight_stalker.Prelude.{
  ◌≡◌, [], Option, none, some, some, Text, ◌==◌, text_eq, if◌then◌else◌, arith,
}
use mathlib.Core.Path.{subst}
use sight_stalker.Persistence.Fixture.{plain_json}
use sight_stalker.Persistence.Rows.{Timestamped, SessionValues}
use sight_stalker.Persistence.Repositories.{Database, Table, Flushed, flushed, violated}
use sight_stalker.Persistence.Repositories.Sessions.Stored.{SessionTableLaws}

abbrev pub SessionRow : Type 0
SessionRow = Timestamped (SessionValues plain_json)

unfoldable pub find_row : Text → Option SessionRow → Option SessionRow
find_row session_id none = none
find_row session_id (some row) = if row.values.session_id == session_id then some row else none

abbrev pub no_rows : {Row : Type 0} → Table (Option SessionRow) Row
no_rows = record { find = λ k db. none; save = λ row db. violated; select = λ p order limit db. [] }

abbrev pub one_session : Database plain_json
one_session = record {
  Db = Option SessionRow;
  profiles = no_rows;
  sessions = record {
    find = find_row;
    save = λ row db. flushed (some row);
    select = λ p order limit db. [];
  };
  runs = no_rows;
  contexts = no_rows;
  artifacts = no_rows;
  add_health = λ row db. violated;
  select_health = λ p order limit db. [];
}

find-same : (row : SessionRow) → find_row row.values.session_id (some row) ≡ some row
unfolding find_row
find-same row = ground arith

find-key :
    (session_id : Text) (row : SessionRow) (db : Option SessionRow)
    → find_row session_id db ≡ some row
    → row.values.session_id ≡ session_id
unfolding find_row
find-key session_id row none h = cc
find-key session_id row (some found) h = grind arith

saved_found :
    (row : SessionRow) (db after : Option SessionRow)
    → ◌≡◌ {A = Flushed (Option SessionRow)} (flushed (some row)) (flushed after)
    → find_row row.values.session_id after ≡ some row
saved_found row db after h =
    let same : some row ≡ after = cc in
    subst (λ a. find_row row.values.session_id a ≡ some row) same (find-same row)

pub one_session_laws : SessionTableLaws plain_json one_session
one_session_laws = record { find-save = saved_found; find-key = find-key }
