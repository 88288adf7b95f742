-- ===== src/Sdk.antt =====
-- The data types of the Solana crates that the sidecar builds and takes apart. Keys, signatures and
-- block hashes are named by the numbers that their bytes spell.
use noir_sidecar.Prelude.{ℕ, String, Bool, Option, List}
use noir_sidecar.Prelude.Result.{Result}

abbrev pub Bytes : Type 0
Bytes = List ℕ

abbrev pub Pubkey : Type 0
Pubkey = ℕ

abbrev pub Signature : Type 0
Signature = ℕ

abbrev pub Slot : Type 0
Slot = ℕ

pub record Account : Type 0 where
  pub lamports : ℕ
  pub contents : Bytes
  pub owner : Pubkey
  pub executable : Bool
  pub rent_epoch : ℕ

-- The pattern of a `Memcmp` filter, as it was given or decoded.
pub data MemcmpBytes : Type 0 where
  base58 : String → MemcmpBytes
  base64 : String → MemcmpBytes
  raw : Bytes → MemcmpBytes

pub record Memcmp : Type 0 where
  pub position : ℕ
  pub pattern_bytes : MemcmpBytes

pub data RpcFilterType : Type 0 where
  data_size : ℕ → RpcFilterType
  memcmp : Memcmp → RpcFilterType
  token_account_state : RpcFilterType

pub record VersionedMessage : Type 0 where
  pub recent_blockhash : ℕ
  pub body : Bytes

pub record VersionedTransaction : Type 0 where
  pub signatures : List Signature
  pub message : VersionedMessage

-- A list of inner instructions, of one transaction, is carried unread.
pub record TransactionSimulationResult : Type 0 where
  pub result : Result String (Unit {0})
  pub logs : List String
  pub post_simulation_accounts : List (Pubkey × Account)
  pub units_consumed : ℕ
  pub return_data : Option Bytes
  pub inner_instructions : Option (List Bytes)

-- The keys of a simulated message: the static ones, and the loaded ones, writable and readonly.
abbrev pub SimulatedKeys : Type 0
SimulatedKeys = List Pubkey × Option (List Pubkey × List Pubkey)
