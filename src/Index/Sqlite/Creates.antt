-- ===== src/Index/Sqlite/Creates.antt =====
-- db/index/sqlite.rs: `create_index` keeps the rows of the database that it finds, and
-- makes the table where there is none.
use noir_sidecar.Prelude.{◌≡◌, refl, true, false, arith, Bool}
use noir_sidecar.Prelude.Result.{ok}
use noir_sidecar.Index.{KeyText, Row}
use noir_sidecar.Index.Creation.{SameRows, Keeps}
use noir_sidecar.Index.Sqlite.{
  SqliteEngine, exists_sql, create_sql, locked, prepared, create_tables, unless_found, create_index,
}

-- What SQLite documents of the statements that create the table: they touch no row, and a table that
-- the catalogue has, or that they have made, is there to be used, while the mutex is not poisoned.
pub record SqliteCreates {Db : Type 0} (engine : SqliteEngine Db) (Ready : Db → Type 0)
    (holds : Db → Row → Bool) : Type 0 where
  pub found :
      (db : Db) → engine.lock db ≡ true → engine.query_exists exists_sql db ≡ ok true → Ready db
  pub made :
      (db : Db)
      → engine.lock db ≡ true
      → (engine.execute_batch create_sql db).0 ≡ ok tt
      → Ready (engine.execute_batch create_sql db).1
  pub creates : (db : Db) → SameRows holds db (engine.execute_batch create_sql db).1

module _ {Db : Type 0} (engine : SqliteEngine Db) (keys : KeyText) (Ready : Db → Type 0)
    (holds : Db → Row → Bool) (law : SqliteCreates engine Ready holds) where
  pub create_index-Keeps : Keeps holds (create_index engine keys)
  unfolding create_index locked prepared unless_found create_tables
  create_index-Keeps db r = ground (arith, law.creates db r)

  -- A creation that succeeds leaves a table to be used.
  pub create_index-Ready :
      (db : Db) → (create_index engine keys db).0 ≡ ok tt → Ready (create_index engine keys db).1
  unfolding create_index locked prepared unless_found create_tables
  create_index-Ready db h = ground (arith, h, law.found db, law.made db)

-- A database without the table, as `open_in_memory` gives it: its mutex is not poisoned, the catalogue
-- can be asked and has no table of that name, and the batch that creates the table leaves a ready
-- state without rows.
pub record IsFresh {Db : Type 0} (engine : SqliteEngine Db) (Ready : Db → Type 0)
    (holds : Db → Row → Bool) (db : Db) : Type 0 where
  pub unlocked : engine.lock db ≡ true
  pub prepares : engine.prepare exists_sql db ≡ ok tt
  pub absent : engine.query_exists exists_sql db ≡ ok false
  pub creates :
      (t : Db) × (engine.execute_batch create_sql db ≡ (ok tt, t))
      × Ready t
      × ((r : Row) → holds t r ≡ false)

module _ {Db : Type 0} (engine : SqliteEngine Db) (keys : KeyText) (Ready : Db → Type 0)
    (holds : Db → Row → Bool) where
  pub fresh-create_index :
      (db t : Db)
      → IsFresh engine Ready holds db
      → engine.execute_batch create_sql db ≡ (ok tt, t)
      → create_index engine keys db ≡ (ok tt, t)
  unfolding create_index locked prepared unless_found create_tables
  fresh-create_index db t fresh batch =
      rw (fresh.unlocked, fresh.prepares, fresh.absent, batch) refl
