-- ===== src/Store/Query.antt =====
-- One SQL statement: a step on the database at the instant of `now()`. `no_rows` is pgx.ErrNoRows;
-- `unique_violation` is SQLSTATE 23505; any other failure (a foreign key, a lost connection, a
-- cancelled context) is `failed`.
use ticket_watcher.Prelude.{◌+◌, List, [], ◌∷◌, ◌++◌, Option, none, some}
use ticket_watcher.Prelude.Outcome.{Outcome, ok, err}
use ticket_watcher.Prelude.Instant.{Instant}
use ticket_watcher.Store.Models.{Db, Table}

pub data DbError : Type 0 where
  no_rows unique_violation failed : DbError

abbrev pub Query : Type 0 → Type 0
Query A = Instant → Db → Outcome DbError A × Db

module _ {A : Type 0} where
  -- `:one`: the row, or ErrNoRows.
  abbrev pub one : Option A → Outcome DbError A
  one none = err no_rows
  one (some a) = ok a

  -- A row added under the table's next id.
  abbrev pub insert_row : A → Table A → Table A
  insert_row a t = record { rows = t.rows ++ (a ∷ []); next = t.next + 1 }

  abbrev pub with_rows : List A → Table A → Table A
  with_rows rows t = record t { rows = rows }
