-- ===== src/Client.antt =====
-- client/mod.rs and client/error.rs: the types of the client that the sidecar shares, and the
-- channel over which requests reach its connection.
pub mod Loop
pub mod Served
pub mod Views
pub mod Node
pub mod Codec
pub mod Calls
pub mod Solana
pub mod Samples
use noir_sidecar.Prelude.{ℕ, String, Option, List}
use noir_sidecar.Prelude.Result.{Result}

-- The payload of `client_error` is a foreign error, kept as its debug text.
pub data Error : Type 0 where
  client_error : String → Error
  invalid_request : String → Error
  parse_error : String → Error
  request_failed : String → Error
  unexpected_response : String → Error

-- A JSON value, by its text.
abbrev pub Value : Type 0
Value = String

abbrev pub Response : Type 0
Response = Result Error Value

-- A block hash, by the number that its 32 bytes spell.
abbrev pub Hash : Type 0
Hash = ℕ

-- What the sidecar inserts into a positional parameter list. A hash and `Some` of it are the same
-- JSON, and `hash none` is `null`.
pub data Param : Type 0 where
  text : String → Param
  number : ℕ → Param
  hash : Option Hash → Param

abbrev pub ArrayParams : Type 0
ArrayParams = List Param

-- `response` names the oneshot channel of the caller that waits.
pub record Request : Type 0 where
  pub method : String
  pub params : ArrayParams
  pub response : ℕ
  pub retry : ℕ

pub data Message : Type 0 where
  request : Request → Message
  try_connect : Message

pub record ClientConfig : Type 0 where
  pub endpoint : String
  pub request_timeout_seconds : Option ℕ
  pub connection_timeout_seconds : Option ℕ
  pub max_concurrent_requests : Option ℕ
  pub max_response_size : Option ℕ
