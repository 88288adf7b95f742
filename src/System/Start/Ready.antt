-- ===== src/System/Start/Ready.antt =====
-- main.rs: a sidecar that has started.
use noir_sidecar.Prelude.{◌≡◌, String, ℕ, none, some, Bool, [], ◌∷◌}
use noir_sidecar.Prelude.Result.{Result, ok}
use noir_sidecar.Index.{Indexer, KeyText, Row}
use noir_sidecar.Index.Contract.{IsKeyed}
use noir_sidecar.Index.Open.{Connections, create_pool}
use noir_sidecar.Index.Sqlite
use noir_sidecar.Index.Postgres
use noir_sidecar.Index.Postgres.{PoolSettings}
use noir_sidecar.Index.Sqlite.Creates.{
  create_index-Keeps as sqlite-Keeps, create_index-Ready as sqlite-Ready,
}
use noir_sidecar.Index.Postgres.Creates.{
  create_index-Keeps as postgres-Keeps, create_index-Ready as postgres-Ready,
}
use noir_sidecar.Rpc.Dispatch.{JsonRpc}
use noir_sidecar.Rpc.Dispatch
use noir_sidecar.System.Start.{Config, ProgramIds, Sidecar, Started, on_postgres, on_sqlite}

module _ {M : Type 0} (ids : ProgramIds) (json_rpc : JsonRpc M) where
  -- The sidecar of a configuration, over an implementation of the index and a valid database.
  pub record Ready {S : Type 0} (config : Config) (index : Indexer S) (IsValid : S → Type 0)
      (sidecar : Sidecar M S) : Type 0 where
    pub indexer : sidecar.accounts_index.indexer ≡ index
    pub excludes :
        sidecar.accounts_index.exclude_keys
        ≡ ids.system_program ∷ ids.bpf_loader ∷ ids.compute_budget ∷ ids.token ∷ ids.token_2022 ∷ []
    pub listens_at : sidecar.event_subscriber.endpoint ≡ config.client.endpoint
    pub listens_for :
        (channel : ℕ) × (sidecar.event_subscriber.filters
          ≡ record { pallet_name = "Solana"; event_name = "LoadedAccounts"; tx = channel } ∷ [])
        × (sidecar.accounts_index.tx ≡ channel)
    pub answers : Dispatch.create json_rpc ≡ ok sidecar.module'
    pub server : sidecar.server ≡ config.server
    pub valid : IsValid sidecar.database

  module _ {Lite Pg : Type 0} (connections : Connections Lite Pg) (lite : Sqlite.SqliteEngine Lite)
      (pg : Postgres.PostgresEngine Pg) (keys : KeyText) (LiteReady : Lite → Type 0)
      (lite_rows : Lite → Row → Bool) (PgReady : Pg → Type 0) (pg_rows : Pg → Row → Bool) where
    -- The databases that are there hold rows of keys only, as the sidecar writes them.
    pub record OpensKeyed : Type 0 where
      pub file :
          (path : String) (db : Lite)
          → connections.open_file path ≡ ok db
          → IsKeyed keys lite_rows db
      pub memory : (db : Lite) → connections.open_in_memory ≡ ok db → IsKeyed keys lite_rows db
      pub pool :
          (settings : PoolSettings) (db : Pg)
          → connections.create_pool settings ≡ ok db
          → IsKeyed keys pg_rows db

    -- What a configuration starts: the PostgreSQL index exactly when PostgreSQL is configured.
    abbrev pub IsReady : Config → Started M Lite Pg → Type 0
    IsReady config (on_postgres sidecar) =
        (postgres_config : Postgres.PostgresConfig) × (config.postgres ≡ some postgres_config)
        × Ready config (Postgres.indexer pg keys) (λ db. PgReady db × IsKeyed keys pg_rows db)
            sidecar
    IsReady config (on_sqlite sidecar) =
        (config.postgres ≡ none)
        × Ready config (Sqlite.indexer lite keys) (λ db. LiteReady db × IsKeyed keys lite_rows db)
            sidecar
