-- ===== src/Index/Postgres/Creates.antt =====
-- db/index/postgres.rs: `create_index` keeps the rows of the database that it finds.
use noir_sidecar.Prelude.{◌≡◌, String, true, false, List, arith, Bool, [], is_empty, not}
use noir_sidecar.Prelude.Result.{Result, ok, err}
use noir_sidecar.Index.{KeyText, Row}
use noir_sidecar.Index.Creation.{SameRows, Keeps}
use noir_sidecar.Index.Postgres.{
  PostgresEngine, exists_sql, create_table_sql, create_key_index_sql, create_indexed_index_sql,
  connected, prepared, queried, executed, create_tables, if_empty, create_index,
}

abbrev pub succeeds : {A : Type 0} → Result String A → Bool
succeeds (ok a) = true
succeeds (err e) = false

abbrev pub finds_rows : Result String (List String) → Bool
finds_rows (ok rows) = not (is_empty rows)
finds_rows (err e) = false

-- What PostgreSQL documents of the statements that create the table and its indices: they touch no
-- row, and a table that the catalogue has, or that they have made, is there to be used, while the pool
-- gives a connection.
pub record PostgresCreates {Db : Type 0} (engine : PostgresEngine Db) (Ready : Db → Type 0)
    (holds : Db → Row → Bool) : Type 0 where
  pub found :
      (db : Db)
      → engine.conn db ≡ true
      → finds_rows (engine.query exists_sql [] db) ≡ true
      → Ready db
  pub made :
      (db : Db)
      → engine.conn db ≡ true
      → succeeds (engine.execute create_table_sql [] db).0 ≡ true
      → Ready (engine.execute create_table_sql [] db).1
  pub stays_key_index : (db : Db) → Ready db → Ready (engine.execute create_key_index_sql [] db).1
  pub stays_indexed_index :
      (db : Db) → Ready db → Ready (engine.execute create_indexed_index_sql [] db).1
  pub creates_table : (db : Db) → SameRows holds db (engine.execute create_table_sql [] db).1
  pub creates_key_index :
      (db : Db) → SameRows holds db (engine.execute create_key_index_sql [] db).1
  pub creates_indexed_index :
      (db : Db) → SameRows holds db (engine.execute create_indexed_index_sql [] db).1

module _ {Db : Type 0} (engine : PostgresEngine Db) (keys : KeyText) (Ready : Db → Type 0)
    (holds : Db → Row → Bool) (law : PostgresCreates engine Ready holds) where
  create_tables-Keeps : Keeps holds (create_tables engine keys)
  unfolding create_tables executed
  create_tables-Keeps db r =
      let first = (engine.execute create_table_sql [] db).1 in
      let second = (engine.execute create_key_index_sql [] first).1 in
      ground (
        arith,
        law.creates_table db r,
        law.creates_key_index first r,
        law.creates_indexed_index second r,
      )

  pub create_index-Keeps : Keeps holds (create_index engine keys)
  unfolding create_index connected prepared queried if_empty
  create_index-Keeps db r = ground (arith, create_tables-Keeps db r)

  create_tables-Ready :
      (db : Db)
      → engine.conn db ≡ true
      → (create_tables engine keys db).0 ≡ ok tt
      → Ready (create_tables engine keys db).1
  unfolding create_tables executed
  create_tables-Ready db c h =
      let first = (engine.execute create_table_sql [] db).1 in
      let second = (engine.execute create_key_index_sql [] first).1 in
      ground (arith, h, law.made db, law.stays_key_index first, law.stays_indexed_index second)

  -- A creation that succeeds leaves a table to be used.
  pub create_index-Ready :
      (db : Db) → (create_index engine keys db).0 ≡ ok tt → Ready (create_index engine keys db).1
  unfolding create_index connected prepared queried if_empty
  create_index-Ready db h = ground (arith, h, law.found db, create_tables-Ready db)
