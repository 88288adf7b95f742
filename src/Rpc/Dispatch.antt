-- ===== src/Rpc/Dispatch.antt =====
-- rpc/solana/mod.rs, the trait `Solana`, and rpc/mod.rs: the names under which the methods are
-- registered, the module that holds them, and the handler of a request.
use noir_sidecar.Prelude.{ℕ, String, some, List, [], ◌∷◌, map}
use noir_sidecar.Prelude.Result.{Result, ok, err}
use noir_sidecar.Client.{Value}
use noir_sidecar.Client.Node.{Node, Outcome, returned, panicked}
use noir_sidecar.Rpc.{ErrorObject}
use noir_sidecar.Rpc.Crates.{Crates}
use noir_sidecar.Rpc.Verify.{internal_error}

pub data SolanaMethod : Type 0 where
  get_account_info get_multiple_accounts get_program_accounts : SolanaMethod
  get_token_accounts_by_owner get_latest_blockhash send_transaction : SolanaMethod
  simulate_transaction get_fee_for_message get_balance get_genesis_hash : SolanaMethod
  get_version request_airdrop get_signatures_for_address : SolanaMethod
  get_vote_accounts get_signature_statuses : SolanaMethod

-- `#[method(name = ..)]`.
abbrev pub method_name : SolanaMethod → String
method_name get_account_info = "getAccountInfo"
method_name get_multiple_accounts = "getMultipleAccounts"
method_name get_program_accounts = "getProgramAccounts"
method_name get_token_accounts_by_owner = "getTokenAccountsByOwner"
method_name get_latest_blockhash = "getLatestBlockhash"
method_name send_transaction = "sendTransaction"
method_name simulate_transaction = "simulateTransaction"
method_name get_fee_for_message = "getFeeForMessage"
method_name get_balance = "getBalance"
method_name get_genesis_hash = "getGenesisHash"
method_name get_version = "getVersion"
method_name request_airdrop = "requestAirdrop"
method_name get_signatures_for_address = "getSignaturesForAddress"
method_name get_vote_accounts = "getVoteAccounts"
method_name get_signature_statuses = "getSignatureStatuses"

-- The methods, in the order of the trait.
abbrev pub methods : List SolanaMethod
methods =
    get_account_info ∷ get_multiple_accounts ∷ get_program_accounts ∷ get_token_accounts_by_owner
    ∷ get_latest_blockhash ∷ send_transaction ∷ simulate_transaction ∷ get_fee_for_message
    ∷ get_balance ∷ get_genesis_hash ∷ get_version ∷ request_airdrop ∷ get_signatures_for_address
    ∷ get_vote_accounts ∷ get_signature_statuses ∷ []

abbrev pub registered : List (String × SolanaMethod)
registered = map (λ m. (method_name m, m)) methods

-- `jsonrpsee`, whose modules are `M`, and `serde_json`.
pub record JsonRpc (M : Type 0) : Type 0 where
  pub new : M
  pub into_rpc : List (String × SolanaMethod) → M
  pub merge : M → M → Result String M
  pub raw_json_request : M → String → Node → Outcome String String × Node
  pub value_to_string : Value → Result String String
  pub error_to_value : ErrorObject → Result String Value
  pub value_from_str : String → Result String Value

module _ {M : Type 0} (json_rpc : JsonRpc M) where
  -- `JsonRpcModule::create`.
  unfoldable pub create : Result String M
  create = json_rpc.merge json_rpc.new (json_rpc.into_rpc registered)

  module _ (crates : Crates) where
    -- A status and a body; a `.unwrap()` on an error panics.
    with_status : ℕ → Result String Value → Outcome String (ℕ × Value)
    with_status status (ok body) = returned (ok (status, body))
    with_status status (err e) = panicked

    respond : Outcome String String × Node → Outcome String (ℕ × Value) × Node
    unfolding with_status
    respond (returned (ok response), n) = (with_status 200 (json_rpc.value_from_str response), n)
    respond (returned (err e), n) =
        (with_status 500 (json_rpc.error_to_value (internal_error crates (some e))), n)
    respond (panicked, n) = (panicked, n)

    handle_payload : M → Result String String → Node → Outcome String (ℕ × Value) × Node
    unfolding respond
    handle_payload module' (ok request) n = respond (json_rpc.raw_json_request module' request n)
    handle_payload module' (err e) n = (panicked, n)

    unfoldable pub handle_rpc_request : M → Value → Node → Outcome String (ℕ × Value) × Node
    unfolding handle_payload
    handle_rpc_request module' payload n =
        handle_payload module' (json_rpc.value_to_string payload) n
