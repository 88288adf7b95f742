-- ===== src/Rpc/Mock/Methods.antt =====
-- rpc/solana/mock/mod.rs: the methods of the mock node that read and change its machine.
use noir_sidecar.Prelude.{
  ℕ, String, Option, some, List, ◌+◌, map, option_map, length, unwrap_or, ltb, if◌then◌else◌,
}
use noir_sidecar.Prelude.Result.{Result, ok, err, map_err, collect}
use noir_sidecar.Prelude.Words.{ℤ, as_i64}
use noir_sidecar.Sdk.{Bytes, Pubkey, Slot, Account, VersionedTransaction}
use noir_sidecar.Rpc.Crates.{Crates, RpcSendTransactionConfig}
use noir_sidecar.Rpc.Verify.{internal_error, invalid_params, verify_pubkey, verify_signature}
use noir_sidecar.Rpc.Encode.{◌+++◌}
use noir_sidecar.Rpc.Methods.{RpcResponse, RpcBlockhash, too_many}
use noir_sidecar.Rpc.Methods.Transactions.{decode_transaction}
use noir_sidecar.Rpc.Mock.{MockCrates, Mock, ◌>>=◌, pure, lift, execute}
use noir_sidecar.Rpc.Mock.Svm.{TransactionResult, Vm, Bincode, Formats}

-- The status of a transaction; the other fields are constants.
pub record TransactionStatus : Type 0 where
  pub slot : Slot
  pub status : Result String (Unit {0})

abbrev status_of : Slot → TransactionResult → TransactionStatus
status_of slot (ok metadata) = record { slot = slot; status = ok tt }
status_of slot (err e) = record { slot = slot; status = err e }

-- `now` is the time in milliseconds, and `text` the format of a `String`.
module _ (mock_crates : MockCrates) {V : Type 0} (vm : Vm V) (formats : Formats) (crates : Crates)
    (now : ℕ) (text : Bincode String) where
  unfoldable pub get_account : Pubkey → Mock V (Option Account)
  get_account pubkey =
      execute mock_crates vm formats crates formats.pubkey formats.account "getAccount" pubkey

  unfoldable pub get_accounts : List Pubkey → Mock V (List (Pubkey × Option Account))
  get_accounts pubkeys =
      execute mock_crates vm formats crates formats.pubkeys formats.accounts "getAccounts" pubkeys

  -- The slot is the time, as a `u64`.
  unfoldable pub get_mock_hash_and_slot : Mock V (String × Slot)
  get_mock_hash_and_slot = do
    hash ← execute mock_crates vm formats crates text formats.hash "latestBlockhash" ""
    pure (crates.hash_to_string hash, now)

  unfoldable pub get_timestamp : Mock V ℤ
  unfolding get_mock_hash_and_slot as_i64
  get_timestamp = do block ← get_mock_hash_and_slot; pure (as_i64 block.1)

  unfoldable pub get_latest_blockhash : Mock V (RpcResponse RpcBlockhash)
  unfolding get_mock_hash_and_slot
  get_latest_blockhash = do
    block ← get_mock_hash_and_slot
    pure (record {
      slot = block.1;
      value = record { blockhash = block.0; last_valid_block_height = block.1 + 360000 };
    })

  unfoldable pub get_balance : String → Mock V (RpcResponse ℕ)
  unfolding get_mock_hash_and_slot
  get_balance pubkey_str = do
    pubkey ← lift (verify_pubkey crates pubkey_str)
    balance ←
        execute mock_crates vm formats crates formats.pubkey formats.balance "getBalance" pubkey
    block ← get_mock_hash_and_slot
    pure (record { slot = block.1; value = unwrap_or 0 balance })

  unfoldable pub request_airdrop : String → ℕ → Mock V String
  request_airdrop pubkey_str lamports = do
    pubkey ← lift (verify_pubkey crates pubkey_str)
    result ←
        execute mock_crates vm formats crates formats.airdrop formats.result "requestAirdrop"
          (pubkey, lamports)
    transaction ←
        lift (map_err (λ e. internal_error crates (some ("request_airdrop failed. " +++ e))) result)
    pure (crates.signature_to_string transaction.0)

  unfoldable pub send_transaction :
      (ℕ → Bytes → Result String VersionedTransaction)
      → String
      → Option RpcSendTransactionConfig
      → Mock V String
  send_transaction deserialize encoded config = do
    tx ← lift (
        decode_transaction crates deserialize encoded
          (unwrap_or crates.default_send_config config).encoding)
    result ←
        execute mock_crates vm formats crates formats.transaction formats.result "sendTransaction"
          tx
    transaction ←
        lift
          (map_err (λ e. internal_error crates (some ("send_transaction failed. " +++ e))) result)
    pure (crates.signature_to_string transaction.0)

  unfoldable pub get_signature_statuses :
      List String → Mock V (RpcResponse (List (Option TransactionStatus)))
  unfolding get_mock_hash_and_slot
  get_signature_statuses signature_strs =
      if ltb crates.max_get_signature_statuses_query_items (length signature_strs)
      then lift (
          err (
            invalid_params crates
              (some (too_many crates "inputs" crates.max_get_signature_statuses_query_items))))
      else (do
        signatures ← lift (collect (map (verify_signature crates) signature_strs))
        transactions ←
            execute mock_crates vm formats crates formats.signatures formats.results
              "getTransactions" signatures
        block ← get_mock_hash_and_slot
        pure (record {
          slot = block.1;
          value = map (λ result. option_map (λ r. status_of block.1 r) result) transactions;
        }))
