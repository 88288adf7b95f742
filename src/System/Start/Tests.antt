-- ===== src/System/Start/Tests.antt =====
-- main.rs: a start on SQLite, and one whose server cannot listen.
use noir_sidecar.Prelude.{ℕ, ◌≡◌, ◌↔◌, refl, subst, arith, String, []}
use noir_sidecar.Prelude.Result.{Result, ok, err}
use noir_sidecar.Client.Node.{returned}
use noir_sidecar.Index.Contract.{IsKeyed}
use noir_sidecar.Index.Samples.{unary_keys, Table, TableReady, listed, sqlite_table, postgres_table}
use noir_sidecar.Index.Sqlite.Creates.{SqliteCreates}
use noir_sidecar.Index.Postgres.Creates.{PostgresCreates}
use noir_sidecar.Index.Sqlite
use noir_sidecar.Index.Update.Samples.{empty-IsKeyed}
use noir_sidecar.Index.Open.{sqlite_open}
use noir_sidecar.Rpc.Dispatch.{create}
use noir_sidecar.Server.{CorsCrates}
use noir_sidecar.Server.Serving.{Network, run}
use noir_sidecar.System.Samples.{ids, Methods, json_rpc, config, connections, sidecar}
use noir_sidecar.System.Start.{ConfigCrates, read_config, Started, on_sqlite, start, main}
use noir_sidecar.System.Start.Ready.{OpensKeyed}
use noir_sidecar.System.Start.Exit.{Ends, main-Ends}

abbrev opened : Result String Table
opened = ok []

opened-IsKeyed : (db : Table) → opened ≡ ok db → IsKeyed unary_keys listed db
opened-IsKeyed db e =
    let same : [] ≡ db = ground (arith, e) in subst (IsKeyed unary_keys listed) same empty-IsKeyed

abbrev opens :
    OpensKeyed ids json_rpc connections sqlite_table postgres_table unary_keys TableReady listed
      TableReady listed
opens = record {
  file = λ path db e. opened-IsKeyed db e;
  memory = λ db e. opened-IsKeyed db e;
  pool = λ settings db e. opened-IsKeyed db e;
}

abbrev lite_creates : SqliteCreates sqlite_table TableReady listed
lite_creates = record { found = λ db _ _. tt; made = λ db _ _. tt; creates = λ db r. refl }

abbrev pg_creates : PostgresCreates postgres_table TableReady listed
pg_creates = record {
  found = λ db _ _. tt;
  made = λ db _ _. tt;
  stays_key_index = λ db _. tt;
  stays_indexed_index = λ db _. tt;
  creates_table = λ db r. refl;
  creates_key_index = λ db r. refl;
  creates_indexed_index = λ db r. refl;
}

abbrev started : Started Methods Table Table
started = on_sqlite sidecar

starts :
    start ids json_rpc connections sqlite_table postgres_table unary_keys config
    ≡ returned (ok started)
unfolding start sqlite_open Sqlite.create_index create
starts = refl

-- The layers are the numbers of their origins.
abbrev counting : CorsCrates ℕ String
counting = record {
  new = 1;
  permissive = 0;
  from_str = λ s. ok s;
  allow_origins = λ headers. returned (ok 2);
}

-- The port of the configuration is taken, or it is not.
abbrev network : Result String (Unit {0}) → Network ℕ
network bound = record { ip_from_str = λ s. ok 1; bind = λ a. bound; serve = λ s. ok tt }

abbrev config_file : ConfigCrates
config_file = record {
  read_to_string = λ path. ok "[server]";
  from_str = λ s. ok config;
  with_context = λ context e. context;
}

-- The start goes through, and its server cannot listen.
not_listening :
    Ends ids json_rpc connections sqlite_table postgres_table unary_keys counting
      (network (err "Address already in use"))
      config_file
      "configs/config.toml"
unfolding run read_config
not_listening = record {
  config = config;
  started = started;
  outcome = err "Address already in use";
  reads = refl;
  starts = starts;
  serves = refl;
}

main-Ends_example :
    (main ids json_rpc connections sqlite_table postgres_table unary_keys counting
        (network (err "Address already in use"))
        config_file
        "configs/config.toml"
      ≡ returned (ok tt))
    ↔ Ends ids json_rpc connections sqlite_table postgres_table unary_keys counting
        (network (err "Address already in use"))
        config_file
        "configs/config.toml"
main-Ends_example =
    main-Ends ids json_rpc connections sqlite_table postgres_table unary_keys counting
      (network (err "Address already in use")) config_file "configs/config.toml"

silent_failure :
    main ids json_rpc connections sqlite_table postgres_table unary_keys counting
      (network (err "Address already in use"))
      config_file
      "configs/config.toml"
    ≡ returned (ok tt)
silent_failure =
    (main-Ends ids json_rpc connections sqlite_table postgres_table unary_keys counting
        (network (err "Address already in use")) config_file "configs/config.toml").1
      not_listening
