-- ===== src/Rpc/Methods/Tests.antt =====
-- rpc/solana/mod.rs: the methods at concrete inputs.
use noir_sidecar.Rpc.Accounts.{RpcKeyedAccount}
use noir_sidecar.Prelude.{All}
use noir_sidecar.Prelude.{
  ℕ, ◌≡◌, ◌≢◌, ◌≤◌, refl, ap, String, Bool, true, false, Option, none, some, List, [], ◌∷◌, ◌++◌,
  map, length, inl, inr, arith, strip_prefix,
}
use noir_sidecar.Prelude.Result.{ok, collect}
use noir_sidecar.Prelude.HashMap.{HashMap, get, insert}
use noir_sidecar.Prelude.Words.{to_le_bytes, from_le_bytes}
use noir_sidecar.Sdk.{Pubkey, VersionedTransaction}
use noir_sidecar.Client.Node.{Node, panicked}
use noir_sidecar.Client.Calls.{request, state_call, strip_0x}
use noir_sidecar.Client.Samples.{encode, decode}
use noir_sidecar.Client.Solana
use noir_sidecar.Client.Solana.{get_accounts}
use noir_sidecar.Rpc.{invalid_req, ErrorObject}
use noir_sidecar.Rpc.Crates.{RpcSimulateTransactionConfig, RpcProgramAccountsConfig, UiAccount}
use noir_sidecar.Rpc.Verify.{
  verify_signature, verify_pubkey, verify_filter, mint, TokenAccountsFilter,
}
use noir_sidecar.Rpc.Filters.{get_spl_token_owner_filter, get_spl_token_mint_filter}
use noir_sidecar.Rpc.Encode.{encode_account, decode_and_deserialize}
use noir_sidecar.Rpc.Accounts.{
  get_token_program_id_and_mint, get_mint_owner_and_additional_data, filter_known_spl_tokens,
  get_accounts_from_overwrites_or_node,
}
use noir_sidecar.Rpc.Tokens.{IndexLookup, redundant_filters}
use noir_sidecar.Rpc.Methods.{RpcResponse, get_multiple_accounts, get_signature_statuses}
use noir_sidecar.Rpc.Methods.Guards.{length-get_multiple_accounts}
use noir_sidecar.Rpc.Methods.Transactions.{RpcSimulateTransactionResult, send_transaction}
use noir_sidecar.Rpc.Methods.Transactions.Answers.{send_transaction-unsigned}
use noir_sidecar.Rpc.Methods.Search.{
  OptionalContext, context, filters_of, wants_context, get_program_accounts,
}
use noir_sidecar.Rpc.Methods.Search.Answers.{has_context, get_program_accounts-eq-ok}
use noir_sidecar.Rpc.Samples.{mint_filters, wire, node, sample, one_missing, unsigned}

abbrev one_text : List String
one_text = "a" ∷ []

abbrev one_row : RpcResponse (List (Option UiAccount))
one_row = record { slot = 258; value = none ∷ [] }

length-get_multiple_accounts_example :
    (length one_text ≤ sample.max_multiple_accounts) × (length one_row.value ≡ length one_text)
unfolding get_multiple_accounts noir_sidecar.Rpc.Verify.verify_pubkeys
    noir_sidecar.Rpc.Verify.verify_pubkey noir_sidecar.Rpc.Accounts.get_hash_with_config
    Solana.latest_blockhash request Solana.get_slot strip_0x strip_prefix encode to_le_bytes decode
    noir_sidecar.Rpc.Tokens.get_encoded_accounts get_accounts_from_overwrites_or_node get_accounts
    Solana.runtime_call state_call from_le_bytes get noir_sidecar.Prelude.HashMap.collect insert
    collect
length-get_multiple_accounts_example =
    length-get_multiple_accounts sample one_missing one_text none node
      (get_multiple_accounts sample one_missing one_text none node).1 one_row refl

abbrev unsigned_transaction : VersionedTransaction
unsigned_transaction = record {
  signatures = [];
  message = record { recent_blockhash = 1; body = wire };
}

abbrev after_convert : Node
after_convert = (Solana.convert_transaction one_missing unsigned_transaction node).1

abbrev after_submit : Node
after_submit =
    (Solana.submit_transaction one_missing sample.debug_error (to_le_bytes 8 258) after_convert).1

send_transaction-unsigned_example :
    send_transaction sample unsigned one_missing "text" none node ≡ (panicked, after_submit)
unfolding noir_sidecar.Rpc.Methods.Transactions.decode_transaction decode_and_deserialize
    Solana.convert_transaction Solana.runtime_call state_call strip_prefix encode to_le_bytes decode
    Solana.submit_transaction
send_transaction-unsigned_example =
    send_transaction-unsigned sample unsigned one_missing "text" none unsigned_transaction
      (to_le_bytes 8 258) 5 node after_convert after_submit refl refl refl refl

abbrev asked_for : Option RpcSimulateTransactionConfig
asked_for = some (record (sample.default_simulate_config) {
  replace_recent_blockhash = true;
  accounts = some (record { encoding = none; addresses = one_text });
})

abbrev simulated : RpcResponse RpcSimulateTransactionResult
simulated = record {
  slot = 258;
  value = record {
    failure = none;
    logs = some [];
    accounts = some (none ∷ []);
    units_consumed = some 0;
    return_data = none;
    inner_instructions = none;
    replacement_blockhash = some (record { blockhash = "hash"; last_valid_block_height = 120 });
  };
}

abbrev empty_index : IndexLookup
empty_index index key sort_results = ok []

abbrev program_config : Option RpcProgramAccountsConfig
program_config = some (record {
  filters = some mint_filters;
  account_config = sample.default_account_info_config;
  with_context = some true;
  sort_results = none;
})

abbrev nothing_found : OptionalContext (List RpcKeyedAccount)
nothing_found = context (record { slot = 258; value = [] })

get_program_accounts-eq-ok_example :
    ((program_id : Pubkey) × (verify_pubkey sample "a" ≡ ok program_id))
    × (length (filters_of program_config) ≤ sample.max_get_program_account_filters)
    × All (λ f. verify_filter sample f ≡ ok tt) (filters_of program_config)
    × (has_context nothing_found ≡ wants_context program_config)
unfolding get_program_accounts verify_pubkey verify_filter
    noir_sidecar.Rpc.Methods.get_hash_and_slot noir_sidecar.Rpc.Accounts.get_hash_with_config
    Solana.latest_blockhash request Solana.get_slot strip_0x strip_prefix encode to_le_bytes decode
    get_spl_token_owner_filter get_spl_token_mint_filter noir_sidecar.Rpc.Tokens.get_indexed_keys
    Solana.get_filtered_indexed_accounts Solana.runtime_call state_call collect from_le_bytes
    noir_sidecar.Rpc.Filters.optimize_filters noir_sidecar.Rpc.Methods.Search.search encode_account
get_program_accounts-eq-ok_example =
    get_program_accounts-eq-ok sample empty_index one_missing "a" program_config node
      (get_program_accounts sample empty_index one_missing "a" program_config node).1 nothing_found
      refl
