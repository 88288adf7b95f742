-- ===== src/Rpc/Methods.antt =====
-- rpc/solana/mod.rs, `impl SolanaServer`: the JSON-RPC methods that read accounts, blocks and
-- signatures.
pub mod Search
pub mod Transactions
pub mod Guards
mod Tests
use Prim.Native.String
use noir_sidecar.Prelude.{
  ℕ, String, Option, none, some, List, [], ◌∷◌, map, unwrap_or, length, ltb, if◌then◌else◌,
}
use noir_sidecar.Prelude.Result.{ok, collect}
use noir_sidecar.Sdk.{Slot, Signature, VersionedMessage, Bytes}
use noir_sidecar.Prelude.Result.{Result}
use noir_sidecar.Client.{Hash}
use noir_sidecar.Client.Node.{pure, fail, lift, ◌>>=◌, ◌>>◌}
use noir_sidecar.Client.Codec.{Codec}
use noir_sidecar.Client.Solana
use noir_sidecar.Rpc.{Rpc, RpcResult}
use noir_sidecar.Rpc.Crates.{
  Crates, binary, UiAccount, processed, RpcContextConfig, RpcAccountInfoConfig, wire_base64,
}
use noir_sidecar.Rpc.Verify.{
  invalid_params, invalid_request, verify_pubkey, verify_pubkeys, verify_signature,
}
use noir_sidecar.Rpc.Encode.{◌+++◌, decode_and_deserialize}
use noir_sidecar.Rpc.Accounts.{asked, get_hash_with_config, get_encoded_account}
use noir_sidecar.Rpc.Tokens.{get_encoded_accounts}

-- `RpcResponse`; the API version of its context is always the default.
pub record RpcResponse (A : Type 0) : Type 0 where
  pub slot : Slot
  pub value : A

pub record RpcBlockhash : Type 0 where
  pub blockhash : String
  pub last_valid_block_height : ℕ

pub record RpcVersionInfo : Type 0 where
  pub solana_core : String
  pub feature_set : Option ℕ

-- Statuses and vote accounts are never built; they would be carried unread.
abbrev pub TransactionStatus : Type 0
TransactionStatus = String

pub record RpcVoteAccountStatus : Type 0 where
  pub current : List String
  pub delinquent : List String

-- The block of a request, and its slot.
abbrev pub context_of : RpcAccountInfoConfig → RpcContextConfig
context_of config = record {
  commitment = config.commitment;
  min_context_slot = config.min_context_slot;
}

module _ (crates : Crates) where
  abbrev pub too_many : String → ℕ → String
  too_many inputs max = "Too many " +++ inputs +++ " provided; max " +++ crates.show_number max

  -- `get_transaction_status`, which answers nothing yet.
  get_transaction_status : Signature → Rpc (Option TransactionStatus)
  get_transaction_status signature = pure none

  -- The loop over the signatures.
  get_statuses : List Signature → Rpc (List (Option TransactionStatus))
  unfolding get_transaction_status
  get_statuses [] = pure []
  get_statuses (signature ∷ signatures) = do
    status ← get_transaction_status signature
    statuses ← get_statuses signatures
    pure (status ∷ statuses)

  module _ (codec : Codec) where
    -- The two reads that most methods begin with.
    unfoldable pub get_hash_and_slot : RpcContextConfig → Rpc (Hash × Slot)
    get_hash_and_slot config = do
      at_hash ← get_hash_with_config crates codec config
      slot ← asked crates (Solana.get_slot codec at_hash)
      pure (at_hash, slot)

    unfoldable pub get_account_info :
        String → Option RpcAccountInfoConfig → Rpc (RpcResponse (Option UiAccount))
    unfolding get_hash_and_slot
    get_account_info pubkey_str config =
        let info = unwrap_or crates.default_account_info_config config in
        (do
          pubkey ← lift (verify_pubkey crates pubkey_str)
          block ← get_hash_and_slot (context_of info)
          response ←
              get_encoded_account crates codec pubkey (unwrap_or binary info.encoding)
                info.data_slice block.0
          pure (record { slot = block.1; value = response }))

    unfoldable pub get_multiple_accounts :
        List String → Option RpcAccountInfoConfig → Rpc (RpcResponse (List (Option UiAccount)))
    unfolding get_hash_and_slot
    get_multiple_accounts pubkey_strs config =
        let info = unwrap_or crates.default_account_info_config config in
        if ltb crates.max_multiple_accounts (length pubkey_strs)
        then fail (invalid_params crates (some (too_many "inputs" crates.max_multiple_accounts)))
        else (do
          pubkeys ← lift (verify_pubkeys crates pubkey_strs)
          block ← get_hash_and_slot (context_of info)
          response ←
              get_encoded_accounts crates codec pubkeys (unwrap_or binary info.encoding)
                info.data_slice block.0 none
          pure (record { slot = block.1; value = response }))

    unfoldable pub get_latest_blockhash : Option RpcContextConfig → Rpc (RpcResponse RpcBlockhash)
    unfolding get_hash_and_slot
    get_latest_blockhash config = do
      block ← get_hash_and_slot (unwrap_or crates.default_context_config config)
      height ← asked crates (Solana.get_last_valid_block_height codec block.0)
      pure (record {
        slot = block.1;
        value = record {
          blockhash = codec.bs58_encode_hash block.0;
          last_valid_block_height = height;
        };
      })

    unfoldable pub get_fee_for_message :
        (ℕ → Bytes → Result String VersionedMessage)
        → String
        → Option RpcContextConfig
        → Rpc (RpcResponse (Option ℕ))
    unfolding get_hash_and_slot
    get_fee_for_message deserialize encoded config = do
      wire ← lift (
          decode_and_deserialize crates deserialize "solana_sdk::message::VersionedMessage" encoded
            wire_base64)
      block ← get_hash_and_slot (unwrap_or crates.default_context_config config)
      fee ← asked crates (Solana.get_fee_for_message codec wire.1 (some block.0))
      pure (record { slot = block.1; value = some fee })

    unfoldable pub get_balance : String → Option RpcContextConfig → Rpc (RpcResponse ℕ)
    unfolding get_hash_and_slot
    get_balance pubkey_str config = do
      pubkey ← lift (verify_pubkey crates pubkey_str)
      block ← get_hash_and_slot (unwrap_or crates.default_context_config config)
      balance ← asked crates (Solana.get_balance codec pubkey block.0)
      pure (record { slot = block.1; value = balance })

    unfoldable pub get_genesis_hash : Rpc String
    get_genesis_hash = asked crates (Solana.get_genesis_hash codec)

    unfoldable pub get_signature_statuses :
        List String → Rpc (RpcResponse (List (Option TransactionStatus)))
    unfolding get_hash_and_slot get_statuses
    get_signature_statuses signature_strs =
        if ltb crates.max_get_signature_statuses_query_items (length signature_strs)
        then fail (
            invalid_params crates
              (some (too_many "inputs" crates.max_get_signature_statuses_query_items)))
        else (do
          signatures ← lift (collect (map (verify_signature crates) signature_strs))
          block ←
              get_hash_and_slot (record { commitment = some processed; min_context_slot = none })
          statuses ← get_statuses signatures
          pure (record { slot = block.1; value = statuses }))

  unfoldable pub get_version : RpcResult RpcVersionInfo
  get_version = ok (record { solana_core = "2.0.18"; feature_set = some 607245837 })

  unfoldable pub request_airdrop : String → ℕ → Rpc String
  request_airdrop pubkey_str lamports = fail (invalid_request crates (some "Unsupported method"))

  unfoldable pub get_signatures_for_address : String → Rpc (List String)
  get_signatures_for_address address = pure []

  unfoldable pub get_vote_accounts : Rpc RpcVoteAccountStatus
  get_vote_accounts = pure (record { current = []; delinquent = [] })
