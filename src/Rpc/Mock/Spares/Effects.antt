-- ===== src/Rpc/Mock/Spares/Effects.antt =====
-- rpc/solana/mock/mod.rs: what each method of the mock node does to its machine.
use noir_sidecar.Prelude.{ℕ, ◌≡◌, refl, ap, ◌∙◌, String, Option, List, unwrap_or}
use noir_sidecar.Prelude.Result.{Result, ok, err, map_err}
use noir_sidecar.Sdk.{Bytes, Pubkey, VersionedMessage, VersionedTransaction}
use noir_sidecar.Rpc.{RpcResult, ErrorObject}
use noir_sidecar.Rpc.Crates.{
  Crates, RpcAccountInfoConfig, RpcProgramAccountsConfig, RpcSendTransactionConfig,
}
use noir_sidecar.Rpc.Verify.{verify_pubkey, RpcTokenAccountsFilter}
use noir_sidecar.Rpc.Methods.Transactions.{decode_transaction}
use noir_sidecar.Rpc.Mock.{MockCrates, MockIndex, Mock, continue, ◌>>=◌, pure, execute}
use noir_sidecar.Rpc.Mock.Methods.{
  get_latest_blockhash, get_balance, request_airdrop, send_transaction, get_signature_statuses,
}
use noir_sidecar.Rpc.Mock.Encoded.{
  Fees, get_account_info, get_multiple_accounts, get_fee_for_message, simulate_transaction,
  get_genesis_hash, get_version, get_signatures_for_address, get_vote_accounts,
}
use noir_sidecar.Rpc.Mock.Search.{get_program_accounts, get_token_accounts_by_owner}
use noir_sidecar.Rpc.Mock.Searches.{Waits, BincodeLaws}
use noir_sidecar.Rpc.Mock.Spares.{Spared, Spares, continue_quiet, execute_writes}
use noir_sidecar.Rpc.Mock.Svm.{SvmTask, TransactionResult, Vm, Bincode, Formats, dispatch}
use noir_sidecar.Rpc.Mock.Spares.Methods.{
  account_info-Spares, multiple_accounts-Spares, program_accounts-Spares, token_accounts-Spares,
  latest_blockhash-Spares, fee_for_message-Spares, balance-Spares, signature_statuses-Spares,
}

module _ {V : Type 0} (vm : Vm V) where
  -- The machine behind an airdrop to a key that was read, and behind a transaction that was decoded.
  abbrev pub aired : RpcResult Pubkey → ℕ → V → V
  aired (ok pubkey) lamports v = (vm.airdrop pubkey lamports v).1
  aired (err e) lamports v = v

  abbrev pub sent : RpcResult VersionedTransaction → V → V
  sent (ok tx) v = (vm.send_transaction tx v).1
  sent (err e) v = v

module _ (mock_crates : MockCrates) {V : Type 0} (vm : Vm V) (formats : Formats) (crates : Crates)
    (accounts_index : MockIndex) (now : ℕ) (text : Bincode String) where
  -- What the methods do to a machine that waits.
  pub record Effects {S M : Type 0} (fees : Fees S M) (s : SvmTask V) : Type 0 where
    pub account_info :
        (key : String) (config : Option RpcAccountInfoConfig)
        → Spared s (get_account_info mock_crates vm formats crates now text key config s).1
    pub multiple_accounts :
        (keys : List String) (config : Option RpcAccountInfoConfig)
        → Spared s (get_multiple_accounts mock_crates vm formats crates now text keys config s).1
    pub program_accounts :
        (key : String) (config : Option RpcProgramAccountsConfig)
        → Spared s
            (get_program_accounts mock_crates vm formats crates accounts_index now text key config
              s).1
    pub token_accounts_by_owner :
        (key : String) (token_filter : RpcTokenAccountsFilter)
        (config : Option RpcAccountInfoConfig)
        → Spared s
            (get_token_accounts_by_owner mock_crates vm formats crates accounts_index now text key
              token_filter config s).1
    pub latest_blockhash :
        Spared s (get_latest_blockhash mock_crates vm formats crates now text s).1
    pub fee_for_message :
        (deserialize : ℕ → Bytes → Result String VersionedMessage) (encoded : String)
        → Spared s
            (get_fee_for_message mock_crates vm formats crates now text fees deserialize encoded
              s).1
    pub balance :
        (key : String) → Spared s (get_balance mock_crates vm formats crates now text key s).1
    pub signature_statuses :
        (signatures : List String)
        → Spared s (get_signature_statuses mock_crates vm formats crates now text signatures s).1
    pub simulation : (encoded : String) → Spared s (simulate_transaction encoded s).1
    pub genesis_hash : Spared s (get_genesis_hash mock_crates s).1
    pub version : Spared s (get_version s).1
    pub signatures_for_address :
        (address : String) → Spared s (get_signatures_for_address address s).1
    pub vote_accounts : Spared s (get_vote_accounts s).1
    pub airdrop :
        (key : String) (lamports : ℕ)
        → (request_airdrop mock_crates vm formats crates now text key lamports s).1.svm
          ≡ aired vm (verify_pubkey crates key) lamports s.svm
    pub transaction :
        (deserialize : ℕ → Bytes → Result String VersionedTransaction) (encoded : String)
        (config : Option RpcSendTransactionConfig)
        → (send_transaction mock_crates vm formats crates now text deserialize encoded config
            s).1.svm
          ≡ sent vm
              (decode_transaction crates deserialize encoded
                (unwrap_or crates.default_send_config config).encoding)
              s.svm

  module _ (airdrops : BincodeLaws formats.airdrop)
      (transactions : BincodeLaws formats.transaction) where
    airdrop_lem :
        {B : Type 0} (key : RpcResult Pubkey) (lamports : ℕ) (f : TransactionResult → Mock V B)
        (s : SvmTask V)
        → ((result : TransactionResult) (t : SvmTask V) → (f result t).1 ≡ t)
        → Waits s
        → (continue
            (key, s)
            (λ pubkey.
              execute mock_crates vm formats crates formats.airdrop formats.result "requestAirdrop"
                (pubkey, lamports)
              >>= f)).1.svm
          ≡ aired vm key lamports s.svm
    unfolding dispatch
    airdrop_lem (err e) lamports f s quiet w = refl
    airdrop_lem (ok pubkey) lamports f s quiet w =
        ap (λ t. t.svm)
          (continue_quiet mock_crates vm formats crates f
            (execute mock_crates vm formats crates formats.airdrop formats.result "requestAirdrop"
              (pubkey, lamports) s)
            quiet)
        ∙ execute_writes mock_crates vm formats crates formats.airdrop formats.result
            "requestAirdrop" (pubkey, lamports) (λ i v. (vm.airdrop i.0 i.1 v).1) s airdrops refl
            (λ params v read. rw read refl) w

    transaction_lem :
        {B : Type 0} (tx : RpcResult VersionedTransaction) (f : TransactionResult → Mock V B)
        (s : SvmTask V)
        → ((result : TransactionResult) (t : SvmTask V) → (f result t).1 ≡ t)
        → Waits s
        → (continue
            (tx, s)
            (λ t.
              execute mock_crates vm formats crates formats.transaction formats.result
                "sendTransaction" t
              >>= f)).1.svm
          ≡ sent vm tx s.svm
    unfolding dispatch
    transaction_lem (err e) f s quiet w = refl
    transaction_lem (ok tx) f s quiet w =
        ap (λ t. t.svm)
          (continue_quiet mock_crates vm formats crates f
            (execute mock_crates vm formats crates formats.transaction formats.result
              "sendTransaction" tx s)
            quiet)
        ∙ execute_writes mock_crates vm formats crates formats.transaction formats.result
            "sendTransaction" tx (λ t v. (vm.send_transaction t v).1) s transactions refl
            (λ params v read. rw read refl) w

    signature_quiet :
        (e : String → ErrorObject) (result : TransactionResult) (t : SvmTask V)
        → (continue
            (map_err e result, t)
            (λ transaction. pure (crates.signature_to_string transaction.0))).1
          ≡ t
    signature_quiet e (ok x) t = refl
    signature_quiet e (err x) t = refl

    -- The fifteen methods on a machine whose task waits for requests. Thirteen of them, all but
    -- `request_airdrop` and `send_transaction`, leave the machine as it is and the task waiting, with an
    -- answer or with an error. `request_airdrop` leaves the machine behind the airdrop to the key, and
    -- `send_transaction` the one behind the transaction, when the key is read and the transaction
    -- decoded; otherwise they leave it as it is. bincode reads back what it writes.
    pub methods-Effects :
        {S M : Type 0} (fees : Fees S M) (s : SvmTask V) → Waits s → Effects fees s
    unfolding Spares request_airdrop send_transaction simulate_transaction get_genesis_hash
        get_version get_signatures_for_address get_vote_accounts
    methods-Effects fees s w = record {
      account_info = λ key config.
          account_info-Spares mock_crates vm formats crates accounts_index now text key config s w;
      multiple_accounts = λ keys config.
          multiple_accounts-Spares mock_crates vm formats crates accounts_index now text keys config
            s w;
      program_accounts = λ key config.
          program_accounts-Spares mock_crates vm formats crates accounts_index now text key config s
            w;
      token_accounts_by_owner = λ key token_filter config.
          token_accounts-Spares mock_crates vm formats crates accounts_index now text key
            token_filter config s w;
      latest_blockhash =
          latest_blockhash-Spares mock_crates vm formats crates accounts_index now text s w;
      fee_for_message = λ deserialize encoded.
          fee_for_message-Spares mock_crates vm formats crates accounts_index now text fees
            deserialize encoded s w;
      balance = λ key. balance-Spares mock_crates vm formats crates accounts_index now text key s w;
      signature_statuses = λ signatures.
          signature_statuses-Spares mock_crates vm formats crates accounts_index now text signatures
            s w;
      simulation = λ encoded. record { waits = w; same = refl };
      genesis_hash = record { waits = w; same = refl };
      version = record { waits = w; same = refl };
      signatures_for_address = λ address. record { waits = w; same = refl };
      vote_accounts = record { waits = w; same = refl };
      airdrop =
          λ key lamports. airdrop_lem (verify_pubkey crates key) lamports _ s (signature_quiet _) w;
      transaction = λ deserialize encoded config.
          transaction_lem
            (decode_transaction crates deserialize encoded
              (unwrap_or crates.default_send_config config).encoding)
            _ s (signature_quiet _) w;
    }
