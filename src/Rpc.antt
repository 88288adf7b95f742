-- ===== src/Rpc.antt =====
-- rpc/mod.rs: the errors of the JSON-RPC methods, and the type of a method that talks to the node.
pub mod Crates
pub mod Verify
pub mod Filters
pub mod Encode
pub mod Accounts
pub mod Tokens
pub mod Methods
pub mod Dispatch
pub mod Mock
pub mod Views
pub mod Samples
mod Tests
use noir_sidecar.Prelude.{String, Option, unwrap_or}
use noir_sidecar.Prelude.Result.{Result}
use noir_sidecar.Client.Node.{Io}

-- The codes of `jsonrpsee` that are used.
pub data ErrorCode : Type 0 where
  internal invalid_parameters invalid_req : ErrorCode

pub record ErrorObject : Type 0 where
  pub code : ErrorCode
  pub message : String

-- The errors of a method, over the standard message of each code.
module _ (standard : ErrorCode → String) where
  unfoldable pub error : ErrorCode → Option String → ErrorObject
  error code message = record { code = code; message = unwrap_or (standard code) message }

abbrev pub RpcResult : Type 0 → Type 0
RpcResult A = Result ErrorObject A

-- An asynchronous method.
abbrev pub Rpc : Type 0 → Type 0
Rpc A = Io ErrorObject A
