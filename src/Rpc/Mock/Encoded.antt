-- ===== src/Rpc/Mock/Encoded.antt =====
-- rpc/solana/mock/mod.rs: the methods of the mock node that answer with encoded accounts, with a fee,
-- or with constants.
use noir_sidecar.Prelude.{
  ℕ, String, Option, none, some, List, [], Bool, false, unwrap_or, length, ltb, if◌then◌else◌,
}
use noir_sidecar.Prelude.Result.{Result, ok, err, map_err}
use noir_sidecar.Prelude.Result.{◌>>=◌ as ◌>>=?◌}
use noir_sidecar.Prelude.Words.{to_le_bytes}
use noir_sidecar.Sdk.{Bytes, VersionedMessage}
use noir_sidecar.Rpc.{RpcResult}
use noir_sidecar.Rpc.Crates.{Crates, binary, UiAccount, RpcAccountInfoConfig, wire_base64}
use noir_sidecar.Rpc.Verify.{invalid_params, verify_pubkey, verify_pubkeys}
use noir_sidecar.Rpc.Encode.{decode_and_deserialize}
use noir_sidecar.Rpc.Methods.{RpcResponse, RpcVersionInfo, RpcVoteAccountStatus, too_many}
use noir_sidecar.Rpc.Methods.Transactions.{RpcSimulateTransactionResult}
use noir_sidecar.Rpc.Mock.{MockCrates, Mock, ◌>>=◌, pure, lift}
use noir_sidecar.Rpc.Mock.Methods.{get_mock_hash_and_slot}
use noir_sidecar.Rpc.Mock.Accounts.{get_encoded_account}
use noir_sidecar.Rpc.Mock.Tokens.{get_encoded_accounts}
use noir_sidecar.Rpc.Mock.Svm.{Vm, Bincode, Formats}

-- `SanitizedVersionedMessage::try_from`, `SanitizedMessage::try_new` without address tables, and
-- `solana_fee::calculate_fee`, at messages of the types `S` and `M`; the fee structure and the
-- feature set are the default ones.
pub record Fees (S M : Type 0) : Type 0 where
  pub sanitize_versioned : VersionedMessage → Result String S
  pub sanitize : S → Result String M
  pub calculate_fee : M → Bool → ℕ → ℕ → Bool → ℕ
  pub lamports_per_signature : ℕ
  pub rounding_removed : Bool

-- The default result of a simulation, whatever is simulated.
abbrev pub nothing_simulated : RpcSimulateTransactionResult
nothing_simulated = record {
  failure = none;
  logs = none;
  accounts = none;
  units_consumed = none;
  return_data = none;
  inner_instructions = none;
  replacement_blockhash = none;
}

-- `[0u8; 32]`.
abbrev pub zeros : Bytes
zeros = to_le_bytes 32 0

module _ (crates : Crates) where
  -- The two sanitizing steps and the fee of what they leave.
  pub fee_of : {S M : Type 0} → Fees S M → VersionedMessage → RpcResult ℕ
  fee_of fees message =
      map_err (λ e. invalid_params crates (some e)) (fees.sanitize_versioned message)
      >>=? λ versioned.
          map_err (λ e. invalid_params crates (some e)) (fees.sanitize versioned) >>=? λ sanitized.
          ok
            (fees.calculate_fee sanitized false fees.lamports_per_signature 0 fees.rounding_removed)

module _ (mock_crates : MockCrates) {V : Type 0} (vm : Vm V) (formats : Formats) (crates : Crates)
    (now : ℕ) (text : Bincode String) where
  unfoldable pub get_account_info :
      String → Option RpcAccountInfoConfig → Mock V (RpcResponse (Option UiAccount))
  get_account_info pubkey_str config =
      let info = unwrap_or crates.default_account_info_config config in
      (do
        pubkey ← lift (verify_pubkey crates pubkey_str)
        response ←
            get_encoded_account mock_crates vm formats crates now text pubkey
              (unwrap_or binary info.encoding) info.data_slice
        pure (record { slot = 0; value = response }))

  unfoldable pub get_multiple_accounts :
      List String → Option RpcAccountInfoConfig → Mock V (RpcResponse (List (Option UiAccount)))
  get_multiple_accounts pubkey_strs config =
      let info = unwrap_or crates.default_account_info_config config in
      if ltb crates.max_multiple_accounts (length pubkey_strs)
      then lift (
          err
            (invalid_params crates (some (too_many crates "inputs" crates.max_multiple_accounts))))
      else (do
        pubkeys ← lift (verify_pubkeys crates pubkey_strs)
        response ←
            get_encoded_accounts mock_crates vm formats crates now text pubkeys
              (unwrap_or binary info.encoding) info.data_slice none
        block ← get_mock_hash_and_slot mock_crates vm formats crates now text
        pure (record { slot = block.1; value = response }))

  unfoldable pub get_fee_for_message :
      {S M : Type 0}
      → Fees S M
      → (ℕ → Bytes → Result String VersionedMessage)
      → String
      → Mock V (RpcResponse (Option ℕ))
  unfolding fee_of
  get_fee_for_message fees deserialize encoded = do
    wire ← lift (
        decode_and_deserialize crates deserialize "solana_sdk::message::VersionedMessage" encoded
          wire_base64)
    fee ← lift (fee_of crates fees wire.1)
    block ← get_mock_hash_and_slot mock_crates vm formats crates now text
    pure (record { slot = block.1; value = some fee })

module _ {V : Type 0} where
  unfoldable pub simulate_transaction : String → Mock V (RpcResponse RpcSimulateTransactionResult)
  simulate_transaction encoded = pure (record { slot = 0; value = nothing_simulated })

  unfoldable pub get_genesis_hash : MockCrates → Mock V String
  get_genesis_hash mock_crates = pure (mock_crates.bs58_encode zeros)

  unfoldable pub get_version : Mock V RpcVersionInfo
  get_version = pure (record { solana_core = "2.0.18"; feature_set = some 607245837 })

  unfoldable pub get_signatures_for_address : String → Mock V (List String)
  get_signatures_for_address address = pure []

  unfoldable pub get_vote_accounts : Mock V RpcVoteAccountStatus
  get_vote_accounts = pure (record { current = []; delinquent = [] })
