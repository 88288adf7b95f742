-- ===== src/Client/Codec.antt =====
-- The encodings of other crates that the client uses: hex, SCALE, bincode, bs58 and serde_json. An
-- error is its debug text.
use noir_sidecar.Prelude.{ℕ, String, Bool, Option, List}
use noir_sidecar.Prelude.Result.{Result}
use noir_sidecar.Sdk.{
  Bytes, Pubkey, Account, RpcFilterType, VersionedMessage, VersionedTransaction,
  TransactionSimulationResult, SimulatedKeys,
}
use noir_sidecar.Client.{Value, Hash}

pub record Codec : Type 0 where
  pub hex_encode : Bytes → String
  pub hex_decode : String → Result String Bytes
  -- `serde_json::from_value`, at each type that is asked for.
  pub from_value_string : Value → Result String String
  pub from_value_optional_string : Value → Result String (Option String)
  pub from_value_hash : Value → Result String Hash
  -- The `number` of a header, a `u32`.
  pub from_value_header : Value → Result String ℕ
  -- SCALE: a pair of a method name and its parameters, and the reply of the runtime call.
  pub encode_call : String → Bytes → Bytes
  pub decode_reply : Bytes → Result String (Result String Bytes)
  -- bincode.
  pub serialize_pubkey : Pubkey → Result String Bytes
  pub serialize_pubkeys : List Pubkey → Result String Bytes
  pub serialize_query : Pubkey → List Pubkey → List RpcFilterType → Result String Bytes
  pub serialize_message : VersionedMessage → Result String Bytes
  pub serialize_transaction : VersionedTransaction → Result String Bytes
  pub serialize_simulation : VersionedTransaction → Bool → Bool → Result String Bytes
  pub deserialize_account : Bytes → Result String (Option Account)
  pub deserialize_accounts : Bytes → Result String (List (Option Account))
  pub deserialize_keyed_accounts : Bytes → Result String (List (Pubkey × Account))
  pub deserialize_u64 : Bytes → Result String ℕ
  pub deserialize_simulation : Bytes → Result String (TransactionSimulationResult × SimulatedKeys)
  -- `bs58::encode(hash.as_bytes()).into_string()`.
  pub bs58_encode_hash : Hash → String
