-- ===== src/Rpc/Mock/Search.antt =====
-- rpc/solana/mock/mod.rs, `get_program_accounts` and `get_token_accounts_by_owner` of the mock node.
use noir_sidecar.Prelude.{
  ℕ, String, Bool, ◌&&◌, Option, none, some, List, unwrap_or, length, ltb, if◌then◌else◌,
}
use noir_sidecar.Prelude.Result.{err}
use noir_sidecar.Sdk.{Pubkey, Account, RpcFilterType}
use noir_sidecar.Index.{program_id as program_id_index}
use noir_sidecar.Rpc.Crates.{
  Crates, UiAccountEncoding, binary, UiDataSliceConfig, RpcAccountInfoConfig,
  RpcProgramAccountsConfig,
}
use noir_sidecar.Rpc.Verify.{
  invalid_params, verify_pubkey, RpcTokenAccountsFilter, verify_token_account_filter,
}
use noir_sidecar.Rpc.Filters.{
  optimize_filters, get_spl_token_owner_filter, get_spl_token_mint_filter,
}
use noir_sidecar.Rpc.Encode.{is_json_parsed}
use noir_sidecar.Rpc.Accounts.{RpcKeyedAccount}
use noir_sidecar.Rpc.Methods.{RpcResponse, too_many}
use noir_sidecar.Rpc.Methods.Search.{
  OptionalContext, filters_of, wants_context, account_config_of, verify_filters, encode_all,
  with_slot, mint_filters,
}
use noir_sidecar.Rpc.Mock.{
  MockCrates, MockIndex, Mock, ◌>>=◌, pure, lift, get_indexed_keys, get_filtered_indexed_accounts,
}
use noir_sidecar.Rpc.Mock.Accounts.{get_token_program_id_and_mint}
use noir_sidecar.Rpc.Mock.Tokens.{
  get_filtered_spl_token_accounts_by_owner, get_filtered_spl_token_accounts_by_mint,
  get_parsed_token_keyed_accounts,
}
use noir_sidecar.Rpc.Mock.Svm.{Vm, Bincode, Formats}

module _ (mock_crates : MockCrates) {V : Type 0} (vm : Vm V) (formats : Formats) (crates : Crates)
    (accounts_index : MockIndex) where
  -- The three ways of the search: by the owner, by the mint, by the program.
  unfoldable pub search_by :
      Option Pubkey → Option Pubkey → Pubkey → List RpcFilterType → Mock V (List (Pubkey × Account))
  search_by (some owner) mint program_id filters =
      get_filtered_spl_token_accounts_by_owner mock_crates vm formats crates accounts_index
        program_id owner filters
  search_by none (some mint) program_id filters =
      get_filtered_spl_token_accounts_by_mint mock_crates vm formats crates accounts_index
        program_id mint filters
  search_by none none program_id filters =
      get_filtered_indexed_accounts mock_crates vm formats crates program_id
        (get_indexed_keys accounts_index program_id_index program_id) filters

  -- The search, at optimized filters.
  unfoldable pub search : Pubkey → List RpcFilterType → Mock V (List (Pubkey × Account))
  unfolding search_by
  search program_id filters =
      search_by (get_spl_token_owner_filter crates program_id filters)
        (get_spl_token_mint_filter crates program_id filters) program_id filters

  module _ (now : ℕ) (text : Bincode String) where
    unfoldable pub encode_keyed_accounts :
        UiAccountEncoding
        → Option UiDataSliceConfig
        → Bool
        → List (Pubkey × Account)
        → Mock V (List RpcKeyedAccount)
    encode_keyed_accounts encoding data_slice parsed keyed_accounts =
        if parsed
        then get_parsed_token_keyed_accounts mock_crates vm formats crates now text keyed_accounts
        else lift (encode_all crates encoding data_slice keyed_accounts)

    unfoldable pub get_program_accounts :
        String → Option RpcProgramAccountsConfig → Mock V (OptionalContext (List RpcKeyedAccount))
    unfolding search encode_keyed_accounts
    get_program_accounts program_id_str config =
        let info = account_config_of crates config in
        let encoding = unwrap_or binary info.encoding in
        lift (verify_pubkey crates program_id_str) >>= λ program_id.
        if ltb crates.max_get_program_account_filters (length (filters_of config))
        then lift (
            err (
              invalid_params crates
                (some (too_many crates "filters" crates.max_get_program_account_filters))))
        else (do
          checked ← lift (verify_filters crates (filters_of config))
          keyed_accounts ← search program_id (optimize_filters crates (filters_of config))
          accounts ←
              encode_keyed_accounts encoding info.data_slice
                (crates.is_known_spl_token_id program_id && is_json_parsed encoding) keyed_accounts
          pure (with_slot crates (wants_context config) 0 accounts))

    unfoldable pub get_token_accounts_by_owner :
        String
        → RpcTokenAccountsFilter
        → Option RpcAccountInfoConfig
        → Mock V (RpcResponse (List RpcKeyedAccount))
    unfolding encode_keyed_accounts
    get_token_accounts_by_owner owner_str token_account_filter config =
        let info = unwrap_or crates.default_account_info_config config in
        let encoding = unwrap_or binary info.encoding in
        (do
          owner ← lift (verify_pubkey crates owner_str)
          token_filter ← lift (verify_token_account_filter crates token_account_filter)
          found ← get_token_program_id_and_mint mock_crates vm formats crates now text token_filter
          keyed_accounts ←
              get_filtered_spl_token_accounts_by_owner mock_crates vm formats crates accounts_index
                found.0 owner (mint_filters crates found.1)
          accounts ←
              encode_keyed_accounts encoding info.data_slice (is_json_parsed encoding)
                keyed_accounts
          pure (record { slot = 0; value = accounts }))
