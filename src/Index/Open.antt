-- ===== src/Index/Open.antt =====
-- db/sqlite.rs, db/postgres.rs, db/index: opening the databases, and the wrapper of the index.
use noir_sidecar.Prelude.{ℕ, String, Option, none, some, List, unwrap_or}
use noir_sidecar.Prelude.Result.{Result, ok, err}
use noir_sidecar.Sdk.{Pubkey}
use noir_sidecar.Client.Node.{Outcome, returned, panicked}
use noir_sidecar.Index.{Exec, Indexer}
use noir_sidecar.Index.Contract.{Implements, View}
use noir_sidecar.Index.Postgres.{PostgresConfig, PoolSettings, pool_settings}

pub record SqliteConfig : Type 0 where
  pub path : Option String

-- `rusqlite` and `deadpool_postgres`: what opening gives.
pub record Connections (Lite Pg : Type 0) : Type 0 where
  pub open_file : String → Result String Lite
  pub open_in_memory : Result String Lite
  pub create_pool : PoolSettings → Result String Pg

abbrev pub default_config : SqliteConfig
default_config = record { path = none }

module _ {Lite Pg : Type 0} (connections : Connections Lite Pg) where
  open_path : Option String → Result String Lite
  open_path (some path) = connections.open_file path
  open_path none = connections.open_in_memory

  -- `Sqlite::open`.
  unfoldable pub sqlite_open : Option SqliteConfig → Result String Lite
  unfolding open_path
  sqlite_open config = open_path (unwrap_or default_config config).path

  unfoldable pub unwrap_pool : Result String Pg → Outcome String Pg
  unwrap_pool (ok pool) = returned (ok pool)
  unwrap_pool (err e) = panicked

  -- `Postgres::create_pool`.
  unfoldable pub create_pool : PostgresConfig → Outcome String Pg
  unfolding unwrap_pool pool_settings
  create_pool config = unwrap_pool (connections.create_pool (pool_settings config))

  -- `SqliteAccountsIndex::create` and `PostgresAccountsIndex::create`.
  abbrev pub create_sqlite : Option SqliteConfig → Result String Lite
  create_sqlite config = sqlite_open config

  abbrev pub create_postgres : PostgresConfig → Outcome String Pg
  create_postgres config = create_pool config

-- `AccountsIndex`, without its client; `tx` names the channel of its worker.
pub record AccountsIndex (S : Type 0) : Type 0 where
  pub indexer : Indexer S
  pub exclude_keys : List Pubkey
  pub tx : ℕ

module _ {S : Type 0} where
  -- The new channel is `tx`.
  abbrev pub create : ℕ → Indexer S → List Pubkey → AccountsIndex S
  create tx indexer exclude_keys = record {
    indexer = indexer;
    exclude_keys = exclude_keys;
    tx = tx;
  }

  abbrev pub initialize : AccountsIndex S → Exec S (Unit {0})
  initialize index = index.indexer.create_index

  -- The wrapper's own implementation of the trait.
  abbrev pub delegate : AccountsIndex S → Indexer S
  delegate index = record {
    get_indexed_keys =
        λ i index_key sort_results. index.indexer.get_indexed_keys i index_key sort_results;
    insert_index = λ i index_key indexed_key. index.indexer.insert_index i index_key indexed_key;
    create_index = index.indexer.create_index;
  }

  -- The wrapper keeps the contract that its implementation keeps.
  pub delegate-Implements :
      (index : AccountsIndex S) (IsValid : S → Type 0) (view : View S)
      → Implements index.indexer IsValid view
      → Implements (delegate index) IsValid view
  delegate-Implements index IsValid view contract = record {
    insert_new = contract.insert_new;
    insert_known = contract.insert_known;
    lookup = contract.lookup;
  }
