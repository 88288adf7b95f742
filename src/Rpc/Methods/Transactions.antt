-- ===== src/Rpc/Methods/Transactions.antt =====
-- rpc/solana/mod.rs, `send_transaction` and `simulate_transaction`.
pub mod Answers
use noir_sidecar.Prelude.{
  ℕ, String, Bool, true, false, ◌||◌, Option, none, some, List, [], ◌∷◌, map, option_map, unwrap_or,
  length, ltb, if◌then◌else◌,
}
use noir_sidecar.Prelude.Result.{Result, ok, err, ok_or}
use noir_sidecar.Prelude.Result.{◌>>=◌ as ◌>>=?◌}
use noir_sidecar.Prelude.HashMap.{collect}
use noir_sidecar.Sdk.{
  Bytes, Signature, VersionedTransaction, TransactionSimulationResult, SimulatedKeys,
}
use noir_sidecar.Client.{Hash}
use noir_sidecar.Client.Node.{pure, fail, lift, panic, ◌>>=◌, ◌>>◌}
use noir_sidecar.Client.Codec.{Codec}
use noir_sidecar.Client.Solana
use noir_sidecar.Rpc.{Rpc, RpcResult}
use noir_sidecar.Rpc.Crates.{
  Crates, UiAccountEncoding, base64, UiAccount, UiTransactionEncoding, tx_base58,
  RpcSendTransactionConfig, RpcSimulateTransactionConfig, RpcSimulateTransactionAccountsConfig,
}
use noir_sidecar.Rpc.Verify.{invalid_params, verify_pubkeys}
use noir_sidecar.Rpc.Encode.{◌+++◌, is_binary, is_base58, decode_and_deserialize}
use noir_sidecar.Rpc.Accounts.{asked}
use noir_sidecar.Rpc.Tokens.{get_encoded_accounts}
use noir_sidecar.Rpc.Methods.{RpcResponse, RpcBlockhash, too_many, get_hash_and_slot}

-- `inner_instructions` holds texts, the parsed instructions of one transaction being carried unread.
pub record RpcSimulateTransactionResult : Type 0 where
  pub failure : Option String
  pub logs : Option (List String)
  pub accounts : Option (List (Option UiAccount))
  pub units_consumed : Option ℕ
  pub return_data : Option Bytes
  pub inner_instructions : Option (List String)
  pub replacement_blockhash : Option RpcBlockhash

-- `Result::err`, and `is_err`.
abbrev pub failure_of : Result String (Unit {0}) → Option String
failure_of (ok x) = none
failure_of (err e) = some e

abbrev pub nones : List String → List (Option UiAccount)
nones addresses = map (λ address. none) addresses

abbrev first_signature : {A : Type 0} → List Signature → (Signature → Rpc A) → Rpc A
first_signature [] k = panic
first_signature (signature ∷ signatures) k = k signature

module _ (crates : Crates) (deserialize : ℕ → Bytes → Result String VersionedTransaction) where
  -- The text of a transaction, in one of the two binary encodings.
  unfoldable pub decode_transaction :
      String → Option UiTransactionEncoding → RpcResult VersionedTransaction
  decode_transaction encoded encoding =
      let tx_encoding = unwrap_or tx_base58 encoding in
      ok_or
        (invalid_params crates (
          some (
            "unsupported encoding: "
            +++ crates.show_tx_encoding tx_encoding
            +++ ". Supported encodings: base58, base64")))
        (crates.into_binary_encoding tx_encoding)
      >>=? λ binary_encoding.
          decode_and_deserialize crates deserialize
            "solana_sdk::transaction::versioned::VersionedTransaction" encoded binary_encoding
          >>=? λ wire. ok wire.1

  module _ (codec : Codec) where
    -- `signatures[0]` is read when the transaction is submitted already.
    unfoldable pub send_transaction : String → Option RpcSendTransactionConfig → Rpc String
    unfolding decode_transaction
    send_transaction encoded config =
        lift (decode_transaction encoded (unwrap_or crates.default_send_config config).encoding)
        >>= λ tx. asked crates (Solana.convert_transaction codec tx) >>= λ converted_tx.
            asked crates (Solana.submit_transaction codec crates.debug_error converted_tx)
            >>= λ submitted.
                first_signature tx.signatures
                  (λ signature. pure (crates.signature_to_string signature))

    -- The replacement of the recent block hash.
    replace_blockhash :
        Bool → Bool → VersionedTransaction → Rpc (VersionedTransaction × Option RpcBlockhash)
    replace_blockhash false sig_verify tx = pure (tx, none)
    replace_blockhash true true tx =
        fail (invalid_params crates (some "sigVerify may not be used with replaceRecentBlockhash"))
    replace_blockhash true false tx = do
      recent_blockhash ← asked crates (Solana.latest_blockhash codec)
      height ← asked crates (Solana.get_last_valid_block_height codec recent_blockhash)
      pure (
        record tx { message = record (tx.message) { recent_blockhash = recent_blockhash } },
        some (record {
          blockhash = crates.hash_to_string recent_blockhash;
          last_valid_block_height = height;
        }),
      )

    -- The accounts of a simulation that succeeded: the simulated ones, and those of the node.
    simulated_accounts :
        TransactionSimulationResult
        → UiAccountEncoding
        → List String
        → Hash
        → Rpc (List (Option UiAccount))
    simulated_accounts simulation encoding addresses at_hash = do
      pubkeys ← lift (verify_pubkeys crates addresses)
      get_encoded_accounts crates codec pubkeys encoding none at_hash
          (some (collect simulation.post_simulation_accounts))

    after_result :
        Result String (Unit {0})
        → TransactionSimulationResult
        → UiAccountEncoding
        → List String
        → Hash
        → Rpc (List (Option UiAccount))
    unfolding simulated_accounts
    after_result (err e) simulation encoding addresses at_hash = pure (nones addresses)
    after_result (ok x) simulation encoding addresses at_hash =
        simulated_accounts simulation encoding addresses at_hash

    report_accounts :
        Option RpcSimulateTransactionAccountsConfig
        → TransactionSimulationResult
        → ℕ
        → Hash
        → Rpc (Option (List (Option UiAccount)))
    unfolding after_result
    report_accounts none simulation number_of_accounts at_hash = pure none
    report_accounts (some config) simulation number_of_accounts at_hash =
        let encoding = unwrap_or base64 config.encoding in
        if is_binary encoding || is_base58 encoding
        then fail (invalid_params crates (some "base58 encoding not supported"))
        else if ltb number_of_accounts (length config.addresses)
        then fail (invalid_params crates (some (too_many crates "accounts" number_of_accounts)))
        else (do
          accounts ← after_result simulation.result simulation encoding config.addresses at_hash
          pure (some accounts))

    report :
        TransactionSimulationResult
        → SimulatedKeys
        → Option (List (Option UiAccount))
        → Option RpcBlockhash
        → RpcSimulateTransactionResult
    report simulation keys accounts blockhash = record {
      failure = failure_of simulation.result;
      logs = some simulation.logs;
      accounts = accounts;
      units_consumed = some simulation.units_consumed;
      return_data = simulation.return_data;
      inner_instructions =
          option_map (λ info. crates.ui_inner_instructions keys info) simulation.inner_instructions;
      replacement_blockhash = blockhash;
    }

    unfoldable pub simulate_transaction :
        String
        → Option RpcSimulateTransactionConfig
        → Rpc (RpcResponse RpcSimulateTransactionResult)
    unfolding decode_transaction replace_blockhash report_accounts report
    simulate_transaction encoded config =
        let c = unwrap_or crates.default_simulate_config config in
        (do
          unsanitized_tx ← lift (decode_transaction encoded c.encoding)
          block ←
              get_hash_and_slot crates codec
                (record { commitment = c.commitment; min_context_slot = c.min_context_slot })
          replaced ← replace_blockhash c.replace_recent_blockhash c.sig_verify unsanitized_tx
          simulated ← asked crates (
              Solana.simulate_transaction codec replaced.0 c.sig_verify c.inner_instructions
                (some block.0))
          accounts ←
              report_accounts c.accounts simulated.0 (crates.account_keys_len simulated.1) block.0
          pure (record {
            slot = block.1;
            value = report simulated.0 simulated.1 accounts replaced.1;
          }))
