-- ===== src/System/Samples.antt =====
-- main.rs: the parts of a sidecar over a list of rows.
use noir_sidecar.Prelude.{String, none, some, List, [], ◌∷◌}
use noir_sidecar.Prelude.Result.{ok}
use noir_sidecar.Client.Codec.{Codec}
use noir_sidecar.Client.Node.{Node, returned}
use noir_sidecar.Client.Samples.{plain, constant_node}
use noir_sidecar.Index.Samples.{unary_keys, Table, sqlite_table}
use noir_sidecar.Index.Sqlite
use noir_sidecar.Index.Open.{Connections, create}
use noir_sidecar.Index.Update.Samples.{token}
use noir_sidecar.Rpc.Dispatch.{JsonRpc, SolanaMethod, registered}
use noir_sidecar.System.{index_tx}
use noir_sidecar.System.Start.{Config, ProgramIds, exclude_keys, Sidecar, subscriber}

-- A node with the one token account.
abbrev pub codec : Codec
codec = record plain { deserialize_accounts = λ bytes. ok (some token ∷ []) }

abbrev pub node : Node
node = constant_node "0x"

abbrev pub ids : ProgramIds
ids = record { system_program = 1; bpf_loader = 2; compute_budget = 3; token = 6; token_2022 = 5 }

abbrev pub Methods : Type 0
Methods = List (String × SolanaMethod)

abbrev pub json_rpc : JsonRpc Methods
json_rpc = record {
  new = [];
  into_rpc = λ table. table;
  merge = λ m m'. ok m';
  raw_json_request = λ m request n. (returned (ok "{}"), n);
  value_to_string = λ v. ok v;
  error_to_value = λ e. ok e.message;
  value_from_str = λ s. ok s;
}

abbrev pub config : Config
config = record {
  server = record {
    listen_address = "127.0.0.1";
    port = 9944;
    cors = none;
    request_timeout_seconds = 30;
  };
  client = record {
    endpoint = "ws://127.0.0.1:9945";
    request_timeout_seconds = none;
    connection_timeout_seconds = none;
    max_concurrent_requests = none;
    max_response_size = none;
  };
  sqlite = none;
  postgres = none;
}

abbrev pub connections : Connections Table Table
connections = record {
  open_file = λ path. ok [];
  open_in_memory = ok [];
  create_pool = λ settings. ok [];
}

abbrev pub sidecar : Sidecar Methods Table
sidecar = record {
  accounts_index = create index_tx (Sqlite.indexer sqlite_table unary_keys) (exclude_keys ids);
  event_subscriber = subscriber config;
  module' = json_rpc.into_rpc registered;
  server = config.server;
  database = [];
}
