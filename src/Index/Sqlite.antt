-- ===== src/Index/Sqlite.antt =====
-- db/index/sqlite.rs, db/sqlite.rs: the index in SQLite. The engine is foreign; the statements are
-- the source's.
pub mod Refines
pub mod Creates
use noir_sidecar.Prelude.{
  ℕ, String, Bool, true, false, Option, none, some, List, [], ◌∷◌, map, ◌==◌, if◌then◌else◌,
}
use noir_sidecar.Prelude.Result.{Result, ok, err, map_err, collect, ◌>>=◌ as and_then}
use noir_sidecar.Sdk.{Pubkey}
use noir_sidecar.Index.{
  Error, sqlite_error, parse_pubkey_error, mutex_error, AccountIndex, get_index_name, Exec, ◌>>=◌,
  ◌>>◌, pure, lift, Indexer, KeyText,
}

-- `rusqlite`, on a connection of state `Db`. `lock` is false when the mutex is poisoned.
pub record SqliteEngine (Db : Type 0) : Type 0 where
  pub lock : Db → Bool
  pub prepare : String → Db → Result String (Unit {0})
  pub query_map : String → List String → Db → Result String (List (Result String String))
  pub query_exists : String → Db → Result String Bool
  pub execute : String → List String → Db → Result String ℕ × Db
  pub execute_batch : String → Db → Result String (Unit {0}) × Db
  -- The text of `rusqlite::Error::StatementChangedRows`.
  pub statement_changed_rows : ℕ → String

abbrev pub select_sql : Bool → String
select_sql true =
    "SELECT indexed_key FROM accounts_index where index_name = ?1 AND index_key = ?2 ORDER BY indexed_key"
select_sql false = "SELECT indexed_key FROM accounts_index where index_name = ?1 AND index_key = ?2"

abbrev pub insert_sql : String
insert_sql = "INSERT INTO accounts_index (index_name, index_key, indexed_key) VALUES (?1, ?2, ?3)"

abbrev pub exists_sql : String
exists_sql = "SELECT name FROM sqlite_master WHERE type='table' AND name='accounts_index'"

-- The text between BEGIN and COMMIT, its lines joined.
abbrev pub create_sql : String
create_sql =
    "BEGIN; CREATE TABLE IF NOT EXISTS accounts_index ( index_name TEXT NOT NULL, index_key TEXT NOT NULL, indexed_key TEXT NOT NULL, UNIQUE (index_name, index_key, indexed_key) ); CREATE INDEX index_accounts_index_index_name_and_index_key ON accounts_index (index_name, index_key); CREATE INDEX index_accounts_index_indexed_key ON accounts_index (indexed_key); COMMIT;"

module _ {Db : Type 0} (engine : SqliteEngine Db) (keys : KeyText) where
  locked : Exec Db (Unit {0})
  locked db = (if engine.lock db then ok tt else err mutex_error, db)

  prepared : String → Exec Db (Unit {0})
  prepared sql db = (map_err sqlite_error (engine.prepare sql db), db)

  -- The body of the loop over the rows.
  read_row : Result String String → Result Error Pubkey
  read_row row =
      and_then (map_err sqlite_error row) (λ key. map_err parse_pubkey_error (keys.from_str key))

  unfoldable pub get_indexed_keys : AccountIndex → Pubkey → Bool → Exec Db (List Pubkey)
  unfolding locked prepared read_row
  get_indexed_keys index index_key sort_results = do
    locked
    prepared (select_sql sort_results)
    rows ← (λ db. (
      map_err sqlite_error (
          engine.query_map (select_sql sort_results)
            (get_index_name index ∷ keys.to_string index_key ∷ []) db),
      db,
    ))
    lift (collect (map read_row rows))

  inserted_rows : ℕ → Exec Db (Unit {0})
  inserted_rows inserted =
      if inserted == 0
      then lift (err (sqlite_error (engine.statement_changed_rows inserted)))
      else pure tt

  unfoldable pub insert_index : AccountIndex → Pubkey → Pubkey → Exec Db (Unit {0})
  unfolding locked inserted_rows
  insert_index index index_key indexed_key = do
    locked
    inserted ← (λ db.
        let (r, db') =
          engine.execute insert_sql
            (get_index_name index ∷ keys.to_string index_key ∷ keys.to_string indexed_key ∷ [])
            db in
        (map_err sqlite_error r, db'))
    inserted_rows inserted

  create_tables : Exec Db (Unit {0})
  create_tables db =
      let (r, db') = engine.execute_batch create_sql db in (map_err sqlite_error r, db')

  unless_found : Bool → Exec Db (Unit {0})
  unless_found true = pure tt
  unless_found false = create_tables

  unfoldable pub create_index : Exec Db (Unit {0})
  unfolding locked prepared unless_found create_tables
  create_index = do
    locked
    prepared exists_sql
    found ← (λ db. (map_err sqlite_error (engine.query_exists exists_sql db), db))
    unless_found found

  -- The implementation of the trait.
  abbrev pub indexer : Indexer Db
  indexer = record {
    get_indexed_keys = get_indexed_keys;
    insert_index = insert_index;
    create_index = create_index;
  }
