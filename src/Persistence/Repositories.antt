-- ===== src/Persistence/Repositories.antt =====
-- persistence/repositories.py. SQLAlchemy's session is a parameter: an unknown database with six tables.
pub mod Profiles
pub mod Sessions
pub mod Runs
pub mod Contexts
pub mod Artifacts
pub mod Health
pub mod Fixture
mod Tests
use sight_stalker.Prelude.{
  ◌≡◌, ◌≤◌, ℕ, Bool, true, false, ◌&&◌, ◌||◌, not, List, [], ◌∷◌, Option, none, some, Text, codes,
  Outcome, ok, raised, ltb, nat_eq, text_le, all, length, if◌then◌else◌, ◌>>=◌,
}
use sight_stalker.Errors.{Exc, plain, persistence_error}
use sight_stalker.Exec.{Exec}
use sight_stalker.Persistence.Stored.{JsonLibrary, integrity_error}
use sight_stalker.Persistence.Rows.{
  Timestamped, ProfileValues, SessionValues, RunValues, ContextValues, ArtifactValues, HealthValues,
  to_utc, aware,
}

-- `flush()`: done, `IntegrityError`, any other exception, after which the transaction is rolled back.
pub data Flushed (Db : Type 0) : Type 0 where
  flushed : Db → Flushed Db
  violated : Flushed Db
  broken : Exc → Flushed Db

-- A table: `session.get`, `session.add` (or new attributes) with `flush`, and `execute(select(...))` with the
-- condition, the order (whether a row may stand before another) and the limit.
pub record Table (Db Row : Type 0) : Type 0 where
  pub find : Text → Db → Option Row
  pub save : Row → Db → Flushed Db
  pub select : (Row → Bool) → (Row → Row → Bool) → Option ℕ → Db → List Row

-- The primary key of a health record is assigned by the database.
pub record HealthRow : Type 0 where
  pub id : ℕ
  pub row : Timestamped HealthValues

pub record Database (json : JsonLibrary) : Type 1 where
  pub Db : Type 0
  pub profiles : Table Db (Timestamped ProfileValues)
  pub sessions : Table Db (Timestamped (SessionValues json))
  pub runs : Table Db (Timestamped (RunValues json))
  pub contexts : Table Db (Timestamped ContextValues)
  pub artifacts : Table Db (Timestamped ArtifactValues)
  pub add_health : Timestamped HealthValues → Db → Flushed Db
  pub select_health :
      (HealthRow → Bool) → (HealthRow → HealthRow → Bool) → Option ℕ → Db → List HealthRow

-- What a select returns: rows that meet the condition, no more than the limit.
pub record SelectLaws {Db Row : Type 0} (table : Table Db Row) : Type 0 where
  pub select-all :
      (p : Row → Bool) (order : Row → Row → Bool) (limit : Option ℕ) (db : Db)
      → all p (table.select p order limit db) ≡ true
  pub select-limit :
      (p : Row → Bool) (order : Row → Row → Bool) (n : ℕ) (db : Db)
      → length (table.select p order (some n) db) ≤ n

-- `raise PersistenceNotFoundError(text)`
abbrev pub not_found : Text → Exc
not_found text = plain persistence_error (codes "PersistenceNotFoundError") text

unfoldable pub check_limit : Option ℕ → Outcome Exc (Unit {0})
check_limit none = ok tt
check_limit (some n) =
    if nat_eq n 0
    then raised (integrity_error (codes "limit must be positive when provided"))
    else ok tt

-- `_flush`
unfoldable pub flush : {D : Type 0} → D → Flushed D → Outcome Exc (Unit {0}) × D
flush db (flushed after) = (ok tt, after)
flush db violated =
    (raised (integrity_error (codes "database integrity constraint was violated")), db)
flush db (broken e) = (raised e, db)

-- `ORM(created_at=..., **values)`, and the attributes that `update` sets
abbrev pub new_row : {V : Type 0} → ℕ → V → Timestamped V
new_row created_at values = record {
  created_at = aware created_at;
  updated_at = none;
  values = values;
}

abbrev pub changed_row : {V : Type 0} → ℕ → V → Timestamped V → Timestamped V
changed_row now values row = record row { updated_at = some (aware now); values = values }

-- `[from_row(r) for r in rows]`
unfoldable pub each {ℓ κ} :
    {A : Type ℓ} {B : Type κ} → (A → Outcome Exc B) → List A → Outcome Exc (List B)
each f [] = ok []
each f (x ∷ xs) = f x >>= λ y. each f xs >>= λ ys. ok (y ∷ ys)

-- `require`, of what `get` found
unfoldable pub or_not_found {ℓ} : {A : Type ℓ} → Text → Option A → Outcome Exc A
or_not_found text none = raised (not_found text)
or_not_found text (some a) = ok a

unfoldable pub on_found {ℓ κ} :
    {A : Type ℓ} {B : Type κ} → Option A → (A → Outcome Exc B) → Outcome Exc (Option B)
on_found none f = ok none
on_found (some a) f = f a >>= λ b. ok (some b)

-- `created_at.desc(), key.asc()` and `created_at.asc(), key.asc()`
unfoldable pub newest_first : {V : Type 0} → (V → Text) → Timestamped V → Timestamped V → Bool
unfolding text_le to_utc
newest_first key a b =
    ltb (to_utc b.created_at) (to_utc a.created_at)
    || (nat_eq (to_utc a.created_at) (to_utc b.created_at) && text_le (key a.values) (key b.values))

unfoldable pub oldest_first : {V : Type 0} → (V → Text) → Timestamped V → Timestamped V → Bool
unfolding text_le to_utc
oldest_first key a b =
    ltb (to_utc a.created_at) (to_utc b.created_at)
    || (nat_eq (to_utc a.created_at) (to_utc b.created_at) && text_le (key a.values) (key b.values))
