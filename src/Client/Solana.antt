-- ===== src/Client/Solana.antt =====
-- client/solana.rs: the node's Solana runtime interface, over `state_call` and plain requests.
pub mod Accounts
pub mod Storage
mod Tests
use Prim.Native.String
use noir_sidecar.Prelude.{
  ℕ, ◌-◌, ◌^◌, String, Bool, Option, none, some, List, [], ◌∷◌, ◌==◌, length, zip, not,
  if◌then◌else◌,
}
use noir_sidecar.Prelude.Result.{Result, ok, err, map_err, ok_or}
use noir_sidecar.Prelude.Words.{ℤ, from_le_bytes, as_i64, saturating_add_u32}
use noir_sidecar.Sdk.{
  Bytes, Pubkey, Slot, Account, RpcFilterType, VersionedMessage, VersionedTransaction,
  TransactionSimulationResult, SimulatedKeys,
}
use noir_sidecar.Client.{
  Error, invalid_request, parse_error, unexpected_response, Hash, Param, text, number, hash,
}
use noir_sidecar.Client.Node.{Io, pure, fail, lift, unwrap, panic, ◌>>=◌, map_err_io}
use noir_sidecar.Client.Codec.{Codec}
use noir_sidecar.Client.Calls.{request, strip_0x, decode_hex, state_call}

-- The storage keys of the timestamp and of the slot.
abbrev pub timestamp_key : String
timestamp_key = "0xf0c365c3cf59d671eb72da0e7a4113c49f1f0515f462cdcf84e0f1d6045dfcbb"

abbrev pub slot_key : String
slot_key = "0xe4ad0d288d0ccf2a73473d025d07cea4ec862ddb18bc3dcede937c1cc93b0aae"

-- `u64::from_le_bytes(bytes.try_into().unwrap())`: any length but eight panics.
abbrev pub u64_of_bytes : Bytes → Io Error ℕ
u64_of_bytes bytes = if length bytes == 8 then pure (from_le_bytes bytes) else panic

module _ (codec : Codec) where
  -- The part that the runtime calls share: serialize the parameters, call, unwrap the inner result.
  unfoldable pub runtime_call : String → Result String Bytes → Option Hash → Io Error Bytes
  runtime_call method serialized at_hash = do
    params ← lift (map_err parse_error serialized)
    reply ←
        state_call codec codec.decode_reply "SolanaRuntimeApi_call"
          (codec.encode_call method params) at_hash
    lift (map_err invalid_request reply)

  unfoldable pub get_account : Pubkey → Option Hash → Io Error (Option Account)
  get_account pubkey at_hash = do
    response ← runtime_call "getAccountInfo" (codec.serialize_pubkey pubkey) at_hash
    lift (map_err parse_error (codec.deserialize_account response))

  -- The count check of `get_accounts`, and the pairing.
  unfoldable pub pair_accounts :
      List Pubkey → List (Option Account) → Result Error (List (Pubkey × Option Account))
  pair_accounts pubkeys accounts =
      if not (length pubkeys == length accounts)
      then err (unexpected_response "Account count mismatch with public keys.")
      else ok (zip pubkeys accounts)

  unfoldable pub get_accounts :
      List Pubkey → Option Hash → Io Error (List (Pubkey × Option Account))
  unfolding pair_accounts
  get_accounts pubkeys at_hash = do
    response ← runtime_call "getMultipleAccounts" (codec.serialize_pubkeys pubkeys) at_hash
    accounts ← lift (map_err parse_error (codec.deserialize_accounts response))
    lift (pair_accounts pubkeys accounts)

  unfoldable pub get_filtered_indexed_accounts :
      Pubkey → List Pubkey → List RpcFilterType → Option Hash → Io Error (List (Pubkey × Account))
  get_filtered_indexed_accounts program_id indexed_keys filters at_hash = do
    response ←
        runtime_call "getProgramAccounts" (codec.serialize_query program_id indexed_keys filters)
          at_hash
    lift (map_err parse_error (codec.deserialize_keyed_accounts response))

  unfoldable pub get_balance : Pubkey → Hash → Io Error ℕ
  get_balance pubkey at_hash = do
    response ← runtime_call "getBalance" (codec.serialize_pubkey pubkey) (some at_hash)
    lift (map_err parse_error (codec.deserialize_u64 response))

  unfoldable pub get_genesis_hash : Io Error String
  get_genesis_hash = do
    genesis ← request codec.from_value_hash "chain_getBlockHash" (number 0 ∷ [])
    pure (codec.bs58_encode_hash genesis)

  -- The part that `get_timestamp` and `get_slot` share: eight little-endian bytes under a key.
  unfoldable pub read_storage : String → String → Hash → Io Error ℕ
  read_storage key missing at_hash = do
    found ←
        request codec.from_value_optional_string "state_getStorage"
          (text key ∷ hash (some at_hash) ∷ [])
    response ← lift (ok_or (unexpected_response missing) found)
    stripped ← strip_0x response
    bytes ← decode_hex codec stripped
    u64_of_bytes bytes

  unfoldable pub get_timestamp : Hash → Io Error ℤ
  unfolding read_storage
  get_timestamp at_hash = do
    now ← read_storage timestamp_key "Timestamp not exist" at_hash
    pure (as_i64 now)

  unfoldable pub get_slot : Hash → Io Error Slot
  unfolding read_storage
  get_slot at_hash = read_storage slot_key "Solana slot not exist" at_hash

  unfoldable pub get_fee_for_message : VersionedMessage → Option Hash → Io Error ℕ
  get_fee_for_message message at_hash = do
    response ← runtime_call "getFeeForMessage" (codec.serialize_message message) at_hash
    lift (map_err parse_error (codec.deserialize_u64 response))

  unfoldable pub convert_transaction : VersionedTransaction → Io Error Bytes
  convert_transaction tx = runtime_call "convertTransaction" (codec.serialize_transaction tx) none

  unfoldable pub submit_transaction : (Error → String) → Bytes → Io Error Hash
  submit_transaction debug converted_tx =
      map_err_io (λ e. invalid_request (debug e))
        (request codec.from_value_hash "author_submitExtrinsic"
          (text (String.◌++◌ "0x" (codec.hex_encode converted_tx)) ∷ []))

  unfoldable pub simulate_transaction :
      VersionedTransaction
      → Bool
      → Bool
      → Option Hash
      → Io Error (TransactionSimulationResult × SimulatedKeys)
  simulate_transaction tx sig_verify enable_cpi_recording at_hash = do
    response ←
        runtime_call "simulateTransaction"
          (codec.serialize_simulation tx sig_verify enable_cpi_recording) at_hash
    lift (map_err parse_error (codec.deserialize_simulation response))

  unfoldable pub latest_blockhash : Io Error Hash
  latest_blockhash = request codec.from_value_hash "chain_getBlockHash" []

  unfoldable pub finalized_blockhash : Io Error Hash
  finalized_blockhash = request codec.from_value_hash "chain_getFinalizedHead" []

  abbrev pub max_age : ℕ
  max_age = 20

  unfoldable pub get_last_valid_block_height : Hash → Io Error ℕ
  get_last_valid_block_height at_hash = do
    header ← request codec.from_value_header "chain_getHeader" (hash (some at_hash) ∷ [])
    pure (saturating_add_u32 header max_age)
