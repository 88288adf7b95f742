-- ===== src/Server/Serving.antt =====
-- server.rs, router/mod.rs: `SidecarServer::run`, and the routes that it serves.
use noir_sidecar.Prelude.{ℕ, String, Bool, true, false, Option, List, [], ◌∷◌}
use noir_sidecar.Prelude.Result.{Result, ok, err}
use noir_sidecar.Client.Node.{Outcome, returned, panicked}
use noir_sidecar.Server.{ItemOrList, CorsCrates, cors_layer}

pub record ServerConfig : Type 0 where
  pub listen_address : String
  pub port : ℕ
  pub cors : Option (ItemOrList String)
  pub request_timeout_seconds : ℕ

pub data Verb : Type 0 where
  get post : Verb

pub data Handler : Type 0 where
  health handle_rpc_request : Handler

pub record Route : Type 0 where
  pub path : String
  pub verb : Verb
  pub handler : Handler

abbrev pub create_router : List Route
create_router =
    record { path = "/health"; verb = get; handler = health }
    ∷ record { path = "/jsonrpc"; verb = post; handler = handle_rpc_request }
    ∷ []

-- The status that an error of the middleware is answered with, given whether it is `Elapsed`.
abbrev pub error_status : Bool → ℕ
error_status true = 408
error_status false = 500

-- An address is that of an `IpAddr`, as a number, with its port.
pub record Address : Type 0 where
  pub ip : ℕ
  pub port : ℕ

-- What is served, and where.
pub record Service (Layer : Type 0) : Type 0 where
  pub address : Address
  pub timeout : ℕ
  pub layer : Layer
  pub error_status : Bool → ℕ
  pub routes : List Route

-- What the server has asked of the network, oldest first.
pub data Act (Layer : Type 0) : Type 0 where
  bound : Address → Act Layer
  served : Service Layer → Act Layer

-- `serve` ends after a graceful shutdown, or fails.
pub record Network (Layer : Type 0) : Type 0 where
  pub ip_from_str : String → Result String ℕ
  pub bind : Address → Result String (Unit {0})
  pub serve : Service Layer → Result String (Unit {0})

module _ {Layer HeaderValue : Type 0} (crates : CorsCrates Layer HeaderValue)
    (network : Network Layer) where
  with_layer :
      ServerConfig → Address → Outcome String Layer → Outcome String (Unit {0}) × List (Act Layer)
  with_layer config address (returned (ok layer)) =
      let service : Service Layer = record {
        address = address;
        timeout = config.request_timeout_seconds;
        layer = layer;
        error_status = error_status;
        routes = create_router;
      } in
      (returned (network.serve service), bound address ∷ served service ∷ [])
  with_layer config address (returned (err e)) = (returned (err e), bound address ∷ [])
  with_layer config address panicked = (panicked, bound address ∷ [])

  with_listener :
      ServerConfig
      → Address
      → Result String (Unit {0})
      → Outcome String (Unit {0}) × List (Act Layer)
  unfolding with_layer
  with_listener config address (ok listener) =
      with_layer config address (cors_layer crates config.cors)
  with_listener config address (err e) = (returned (err e), [])

  with_ip : ServerConfig → Result String ℕ → Outcome String (Unit {0}) × List (Act Layer)
  unfolding with_listener
  with_ip config (ok ip) =
      let address : Address = record { ip = ip; port = config.port } in
      with_listener config address (network.bind address)
  with_ip config (err e) = (returned (err e), [])

  -- `SidecarServer::run`.
  unfoldable pub run : ServerConfig → Outcome String (Unit {0}) × List (Act Layer)
  unfolding with_ip with_listener with_layer
  run config = with_ip config (network.ip_from_str config.listen_address)
