-- ===== src/System/Start.antt =====
-- main.rs, config.rs: from the configuration file to the tasks of a running sidecar.
pub mod Ready
pub mod Runs
pub mod Exit
mod Tests
use Prim.Native.String
use noir_sidecar.Prelude.{◌≡◌, ℕ, String, false, true, Option, none, some, List, [], ◌∷◌}
use noir_sidecar.Prelude.Result.{Result, ok, err, map_err, ◌>>=◌}
use noir_sidecar.Sdk.{Bytes, Pubkey}
use noir_sidecar.Client.{ClientConfig}
use noir_sidecar.Client.Node.{Node, Outcome, returned, panicked}
use noir_sidecar.Event.{EventSubscriber, new, add_filter}
use noir_sidecar.Index.{Error, Indexer, KeyText}
use noir_sidecar.Index.Sqlite
use noir_sidecar.Index.Postgres
use noir_sidecar.Index.Open.{
  SqliteConfig, Connections, create_sqlite, create_postgres, AccountsIndex, create, initialize,
}
use noir_sidecar.Rpc.Dispatch.{JsonRpc}
use noir_sidecar.Rpc.Dispatch
use noir_sidecar.Server.{CorsCrates}
use noir_sidecar.Server.Serving.{ServerConfig, Network, run}
use noir_sidecar.System.{index_tx, System}

pub record Config : Type 0 where
  pub server : ServerConfig
  pub client : ClientConfig
  pub sqlite : Option SqliteConfig
  pub postgres : Option Postgres.PostgresConfig

-- `fs::read_to_string`, `toml::from_str` and `Context::with_context`.
pub record ConfigCrates : Type 0 where
  pub read_to_string : String → Result String String
  pub from_str : String → Result String Config
  pub with_context : String → String → String

module _ (crates : ConfigCrates) where
  unfoldable pub read_config : String → Result String Config
  read_config path = do
    templated_config_str ←
        map_err (crates.with_context (String.◌++◌ "Unable to read config file: " path))
          (crates.read_to_string path)
    map_err (crates.with_context (String.◌++◌ "Unable to parse config file: " path))
        (crates.from_str templated_config_str)

-- The ids of the programs whose accounts are not indexed.
pub record ProgramIds : Type 0 where
  pub system_program : Pubkey
  pub bpf_loader : Pubkey
  pub compute_budget : Pubkey
  pub token : Pubkey
  pub token_2022 : Pubkey

abbrev pub exclude_keys : ProgramIds → List Pubkey
exclude_keys ids =
    ids.system_program ∷ ids.bpf_loader ∷ ids.compute_budget ∷ ids.token ∷ ids.token_2022 ∷ []

-- What the tasks of a sidecar are started with, and the state of its database.
pub record Sidecar (M S : Type 0) : Type 0 where
  pub accounts_index : AccountsIndex S
  pub event_subscriber : EventSubscriber
  pub module' : M
  pub server : ServerConfig
  pub database : S

pub data Started (M Lite Pg : Type 0) : Type 0 where
  on_postgres : Sidecar M Pg → Started M Lite Pg
  on_sqlite : Sidecar M Lite → Started M Lite Pg

abbrev pub server_of : {M Lite Pg : Type 0} → Started M Lite Pg → ServerConfig
server_of (on_postgres sidecar) = sidecar.server
server_of (on_sqlite sidecar) = sidecar.server

-- The event subscriber of a started sidecar.
abbrev pub subscriber : Config → EventSubscriber
subscriber config =
    add_filter (record { pallet_name = "Solana"; event_name = "LoadedAccounts"; tx = index_tx })
      (new config.client)

-- The state from which the tasks run.
abbrev pub initial : {M S : Type 0} → Sidecar M S → Node → System S
initial sidecar n = record {
  subscription = record { connected = false; delivered = [] };
  handled = [];
  alive = true;
  database = sidecar.database;
  node = n;
}

-- `.expect(..)` on the initialization.
abbrev pub expect : {S : Type 0} → Result Error (Unit {0}) × S → Outcome String S
expect (ok u, s) = returned (ok s)
expect (err e, s) = panicked

module _ {M : Type 0} (ids : ProgramIds) (json_rpc : JsonRpc M) where
  made_with :
      {S : Type 0} → Config → AccountsIndex S → S → Result String M → Outcome String (Sidecar M S)
  made_with config index s (ok module') = returned (
      ok (record {
        accounts_index = index;
        event_subscriber = subscriber config;
        module' = module';
        server = config.server;
        database = s;
      }))
  made_with config index s (err e) = returned (err e)

  -- The sidecar, when the module of the methods can be made.
  with_module :
      {S : Type 0} → Config → AccountsIndex S → Outcome String S → Outcome String (Sidecar M S)
  unfolding made_with
  with_module config index (returned (ok s)) = made_with config index s (Dispatch.create json_rpc)
  with_module config index (returned (err e)) = returned (err e)
  with_module config index panicked = panicked

  -- The part of `main` that the two branches share.
  launch : {S : Type 0} → Config → Indexer S → S → Outcome String (Sidecar M S)
  unfolding with_module
  launch config indexer s =
      let index = create index_tx indexer (exclude_keys ids) in
      with_module config index (expect (initialize index s))

  module _ {Lite Pg : Type 0} (connections : Connections Lite Pg) (lite : Sqlite.SqliteEngine Lite)
      (pg : Postgres.PostgresEngine Pg) (keys : KeyText) where
    on :
        {S : Type 0}
        → (Sidecar M S → Started M Lite Pg)
        → Outcome String (Sidecar M S)
        → Outcome String (Started M Lite Pg)
    on wrap (returned (ok sidecar)) = returned (ok (wrap sidecar))
    on wrap (returned (err e)) = returned (err e)
    on wrap panicked = panicked

    start_postgres : Config → Outcome String Pg → Outcome String (Started M Lite Pg)
    unfolding on launch
    start_postgres config (returned (ok pool)) =
        on on_postgres (launch config (Postgres.indexer pg keys) pool)
    start_postgres config (returned (err e)) = returned (err e)
    start_postgres config panicked = panicked

    -- The connection is unwrapped.
    start_sqlite : Config → Result String Lite → Outcome String (Started M Lite Pg)
    unfolding on launch
    start_sqlite config (ok conn) = on on_sqlite (launch config (Sqlite.indexer lite keys) conn)
    start_sqlite config (err e) = panicked

    start_on : Config → Option Postgres.PostgresConfig → Outcome String (Started M Lite Pg)
    unfolding start_postgres start_sqlite
    start_on config (some postgres_config) =
        start_postgres config (create_postgres connections postgres_config)
    start_on config none = start_sqlite config (create_sqlite connections config.sqlite)

    -- `main` after the configuration is read, up to the tasks.
    pub start : Config → Outcome String (Started M Lite Pg)
    unfolding start_on
    start config = start_on config config.postgres

    module _ {Layer HeaderValue : Type 0} (cors : CorsCrates Layer HeaderValue)
        (network : Network Layer) where
      -- What the joined tasks return is dropped; the server runs in the task of `main`, so its panic
      -- is one of `main`.
      joined : Outcome String (Unit {0}) → Outcome String (Unit {0})
      joined (returned r) = returned (ok tt)
      joined panicked = panicked

      after_start : Outcome String (Started M Lite Pg) → Outcome String (Unit {0})
      unfolding joined
      after_start (returned (ok started)) = joined (run cors network (server_of started)).0
      after_start (returned (err e)) = returned (err e)
      after_start panicked = panicked

      with_config : Result String Config → Outcome String (Unit {0})
      unfolding after_start
      with_config (ok config) = after_start (start config)
      with_config (err e) = returned (err e)

      -- `main`, given the path of the configuration.
      pub main : ConfigCrates → String → Outcome String (Unit {0})
      unfolding with_config
      main crates path = with_config (read_config crates path)
