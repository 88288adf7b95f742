-- ===== src/Rpc/Methods/Transactions/Answers.antt =====
-- rpc/solana/mod.rs: what a simulated or a sent transaction is answered with.
use noir_sidecar.Prelude.{
  ℕ, ◌≡◌, refl, String, Bool, true, false, Option, none, some, List, [], unwrap_or, ◌||◌, length,
}
use noir_sidecar.Prelude.Result.{Result, ok}
use noir_sidecar.Sdk.{Bytes, VersionedTransaction, TransactionSimulationResult, SimulatedKeys}
use noir_sidecar.Client.{Hash}
use noir_sidecar.Client.Node.{Node, returned, panicked}
use noir_sidecar.Client.Codec.{Codec}
use noir_sidecar.Client.Solana
use noir_sidecar.Rpc.Crates.{
  Crates, base64, UiAccount, RpcSendTransactionConfig, RpcSimulateTransactionConfig,
  RpcSimulateTransactionAccountsConfig,
}
use noir_sidecar.Rpc.Encode.{is_binary, is_base58}
use noir_sidecar.Rpc.Accounts.{asked}
use noir_sidecar.Rpc.Methods.{RpcBlockhash}
use noir_sidecar.Rpc.Methods.Transactions.{
  RpcSimulateTransactionResult, failure_of, decode_transaction, send_transaction,
  simulate_transaction,
}

module _ (crates : Crates) (deserialize : ℕ → Bytes → Result String VersionedTransaction)
    (codec : Codec) where
  -- A transaction that carries no signature panics the handler, and only once the node has accepted it.
  pub send_transaction-unsigned :
      (encoded : String) (config : Option RpcSendTransactionConfig) (tx : VersionedTransaction)
      (converted_tx : Bytes) (submitted : Hash) (n n₁ n₂ : Node)
      → decode_transaction crates deserialize encoded
          (unwrap_or crates.default_send_config config).encoding
        ≡ ok tx
      → tx.signatures ≡ []
      → asked crates (Solana.convert_transaction codec tx) n ≡ (returned (ok converted_tx), n₁)
      → asked crates (Solana.submit_transaction codec crates.debug_error converted_tx) n₁
        ≡ (returned (ok submitted), n₂)
      → send_transaction crates deserialize codec encoded config n ≡ (panicked, n₂)
  unfolding send_transaction
  send_transaction-unsigned encoded config tx converted_tx submitted n n₁ n₂ d s c u =
      rw (d, c, u, s) refl

  -- The transaction that is simulated for the decoded one, and the replacement that is reported: both
  -- as they were, or the latest block hash put in and nothing else changed.
  abbrev pub Replaces :
      Bool → Bool → VersionedTransaction → VersionedTransaction → Option RpcBlockhash → Type 0
  Replaces false sig_verify tx simulated replacement = (simulated ≡ tx) × (replacement ≡ none)
  Replaces true sig_verify tx simulated replacement =
      (sig_verify ≡ false)
      × ((recent : Hash) × (height : ℕ) × (m : Node) × (m' : Node) × (asked crates
              (Solana.latest_blockhash codec) m
            ≡ (returned (ok recent), m'))
          × (simulated.signatures ≡ tx.signatures)
          × (simulated.message.body ≡ tx.message.body)
          × (simulated.message.recent_blockhash ≡ recent)
          × (replacement
              ≡ some (record {
                blockhash = crates.hash_to_string recent;
                last_valid_block_height = height;
              })))

  -- The accounts that an answered simulation reports.
  abbrev pub ReportsAsAsked :
      Option RpcSimulateTransactionAccountsConfig → Option (List (Option UiAccount)) → Type 0
  ReportsAsAsked none accounts = accounts ≡ none
  ReportsAsAsked (some config) accounts =
      (is_binary (unwrap_or base64 config.encoding) || is_base58 (unwrap_or base64 config.encoding)
        ≡ false)
      × ((rows : List (Option UiAccount)) × (accounts ≡ some rows)
          × (length rows ≡ length config.addresses))

  -- What an answered simulation tells of a call of the node: the transaction that was decoded, the one
  -- that the node was given in its place, and what the node made of that.
  pub record IsSimulated (encoded : String) (c : RpcSimulateTransactionConfig)
      (r : RpcSimulateTransactionResult) : Type 0 where
    pub tx : VersionedTransaction
    pub given : VersionedTransaction
    pub at_hash : Hash
    pub before : Node
    pub after : Node
    pub simulated : TransactionSimulationResult × SimulatedKeys
    pub decodes : decode_transaction crates deserialize encoded c.encoding ≡ ok tx
    pub replaces : Replaces c.replace_recent_blockhash c.sig_verify tx given r.replacement_blockhash
    pub runs :
        asked crates
          (Solana.simulate_transaction codec given c.sig_verify c.inner_instructions (some at_hash))
          before
        ≡ (returned (ok simulated), after)
    pub failure : r.failure ≡ failure_of simulated.0.result
    pub logs : r.logs ≡ some simulated.0.logs
    pub units_consumed : r.units_consumed ≡ some simulated.0.units_consumed
    pub return_data : r.return_data ≡ simulated.0.return_data
    pub accounts : ReportsAsAsked c.accounts r.accounts
