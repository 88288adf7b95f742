-- ===== src/Index/Postgres.antt =====
-- db/index/postgres.rs, db/postgres.rs: the index in PostgreSQL. The engine is foreign; the
-- statements are the source's.
pub mod Refines
pub mod Creates
use noir_sidecar.Prelude.{
  ℕ, String, Bool, true, false, Option, none, some, List, [], ◌∷◌, map, ◌==◌, is_empty, unwrap_or,
  if◌then◌else◌,
}
use noir_sidecar.Prelude.Result.{Result, ok, err, map_err, collect}
use noir_sidecar.Sdk.{Pubkey}
use noir_sidecar.Index.{
  Error, postgres_error, parse_pubkey_error, pool_error, unexpected_row_count, AccountIndex,
  get_index_name, Exec, ◌>>=◌, ◌>>◌, pure, lift, Indexer, KeyText,
}

pub record PostgresConfig : Type 0 where
  pub host : Option String
  pub port : Option ℕ
  pub dbname : Option String
  pub user : Option String
  pub password : Option String
  pub pool_max_size : Option ℕ

-- `deadpool_postgres::Config`, with the fields that are set; `pool` is the size of `PoolConfig`.
pub record PoolSettings : Type 0 where
  pub host : Option String
  pub port : Option ℕ
  pub dbname : Option String
  pub user : Option String
  pub password : Option String
  pub pool : Option ℕ

-- The settings that `Postgres::create_pool` opens the pool with.
unfoldable pub pool_settings : PostgresConfig → PoolSettings
pool_settings config = record {
  host = some (unwrap_or "127.0.0.1" config.host);
  port = some (unwrap_or 5432 config.port);
  dbname = some (unwrap_or "postgres" config.dbname);
  user = some (unwrap_or "postgres" config.user);
  password = some (unwrap_or "postgres" config.password);
  pool = config.pool_max_size;
}

-- `tokio_postgres`, on a database of state `Db`. `conn` is false when the pool gives no connection;
-- the rows of a query are their one text column.
pub record PostgresEngine (Db : Type 0) : Type 0 where
  pub conn : Db → Bool
  pub prepare : String → Db → Result String (Unit {0})
  pub query : String → List String → Db → Result String (List String)
  pub execute : String → List String → Db → Result String ℕ × Db

abbrev pub select_sql : Bool → String
select_sql true =
    "SELECT indexed_key FROM accounts_index where index_name = $1 AND index_key = $2 ORDER BY indexed_key"
select_sql false = "SELECT indexed_key FROM accounts_index where index_name = $1 AND index_key = $2"

abbrev pub insert_sql : String
insert_sql = "INSERT INTO accounts_index (index_name, index_key, indexed_key) VALUES ($1, $2, $3)"

abbrev pub exists_sql : String
exists_sql =
    "SELECT table_name FROM information_schema.tables WHERE table_schema = 'public' AND table_name='accounts_index'"

-- The lines of the statement are joined.
abbrev pub create_table_sql : String
create_table_sql =
    "CREATE TABLE IF NOT EXISTS accounts_index ( index_name TEXT NOT NULL, index_key TEXT NOT NULL, indexed_key TEXT NOT NULL, UNIQUE (index_name, index_key, indexed_key) )"

abbrev pub create_key_index_sql : String
create_key_index_sql =
    "CREATE INDEX index_accounts_index_index_name_and_index_key ON accounts_index (index_name, index_key)"

abbrev pub create_indexed_index_sql : String
create_indexed_index_sql =
    "CREATE INDEX index_accounts_index_indexed_key ON accounts_index (indexed_key)"

module _ {Db : Type 0} (engine : PostgresEngine Db) (keys : KeyText) where
  connected : Exec Db (Unit {0})
  connected db = (if engine.conn db then ok tt else err pool_error, db)

  prepared : String → Exec Db (Unit {0})
  prepared sql db = (map_err postgres_error (engine.prepare sql db), db)

  queried : String → List String → Exec Db (List String)
  queried sql args db = (map_err postgres_error (engine.query sql args db), db)

  executed : String → List String → Exec Db ℕ
  executed sql args db =
      let (r, db') = engine.execute sql args db in (map_err postgres_error r, db')

  -- The body of the loop over the rows.
  read_row : String → Result Error Pubkey
  read_row key = map_err parse_pubkey_error (keys.from_str key)

  unfoldable pub get_indexed_keys : AccountIndex → Pubkey → Bool → Exec Db (List Pubkey)
  unfolding connected prepared queried read_row
  get_indexed_keys index index_key sort_results = do
    connected
    prepared (select_sql sort_results)
    rows ← queried (select_sql sort_results) (get_index_name index ∷ keys.to_string index_key ∷ [])
    lift (collect (map read_row rows))

  inserted_rows : ℕ → Exec Db (Unit {0})
  inserted_rows inserted =
      if inserted == 0 then lift (err (unexpected_row_count inserted)) else pure tt

  unfoldable pub insert_index : AccountIndex → Pubkey → Pubkey → Exec Db (Unit {0})
  unfolding connected executed inserted_rows
  insert_index index index_key indexed_key = do
    connected
    inserted ←
        executed insert_sql
          (get_index_name index ∷ keys.to_string index_key ∷ keys.to_string indexed_key ∷ [])
    inserted_rows inserted

  create_tables : Exec Db (Unit {0})
  unfolding executed
  create_tables = do
    _ ← executed create_table_sql []
    _ ← executed create_key_index_sql []
    _ ← executed create_indexed_index_sql []
    pure tt

  if_empty : List String → Exec Db (Unit {0})
  unfolding create_tables
  if_empty rows = if is_empty rows then create_tables else pure tt

  unfoldable pub create_index : Exec Db (Unit {0})
  unfolding connected prepared queried if_empty
  create_index = do connected; prepared exists_sql; rows ← queried exists_sql []; if_empty rows

  -- The implementation of the trait.
  abbrev pub indexer : Indexer Db
  indexer = record {
    get_indexed_keys = get_indexed_keys;
    insert_index = insert_index;
    create_index = create_index;
  }
