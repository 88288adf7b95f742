-- ===== src/Rpc/Views/Searches.antt =====
-- rpc/solana/mod.rs, `get_program_accounts` and `get_token_accounts_by_owner`, told of the chain
-- and of any accounts index.
use noir_sidecar.Prelude.{
  ℕ, String, Bool, true, not, ◌&&◌, Option, none, some, List, length, ltb, ◌==◌, unwrap_or,
  if◌then◌else◌,
}
use noir_sidecar.Prelude.Result.{ok, err, ◌>>=◌ as ◌>>=?◌}
use noir_sidecar.Prelude.Words.{as_i64}
use noir_sidecar.Sdk.{Pubkey, Account, RpcFilterType}
use noir_sidecar.Index.{program_id as program_id_index, spl_token_owner, spl_token_mint}
use noir_sidecar.Client.{Hash}
use noir_sidecar.Client.Views.{Chain}
use noir_sidecar.Rpc.{RpcResult}
use noir_sidecar.Rpc.Crates.{
  Crates, UiAccountEncoding, binary, UiDataSliceConfig, SplTokenAdditionalData,
  RpcAccountInfoConfig, RpcProgramAccountsConfig,
}
use noir_sidecar.Rpc.Verify.{
  invalid_params, verify_pubkey, RpcTokenAccountsFilter, verify_token_account_filter,
  TokenAccountsFilter, mint, program,
}
use noir_sidecar.Rpc.Filters.{
  optimize_filters, get_spl_token_owner_filter, get_spl_token_mint_filter,
}
use noir_sidecar.Rpc.Encode.{is_json_parsed, get_additional_mint_data}
use noir_sidecar.Rpc.Accounts.{RpcKeyedAccount}
use noir_sidecar.Rpc.Tokens.{IndexLookup, redundant_filters, get_indexed_keys}
use noir_sidecar.Rpc.Methods.{RpcResponse, too_many}
use noir_sidecar.Rpc.Methods.Search.{
  OptionalContext, context, no_context, filters_of, wants_context, wants_sorting, account_config_of,
  verify_filters, encode_all, mint_filters,
}
use noir_sidecar.Rpc.Views.{block_of}
use noir_sidecar.Rpc.Views.Tokens.{parsed_keyed_view}

module _ (crates : Crates) (chain : Chain) where
  abbrev pub mint_account_view : Hash → Option Account → RpcResult (Pubkey × SplTokenAdditionalData)
  mint_account_view h none =
      err (invalid_params crates (some "Invalid param: could not find mint."))
  mint_account_view h (some account) =
      get_additional_mint_data crates account.contents (as_i64 (chain.time h)) >>=? λ data'.
      ok (account.owner, data')

  abbrev pub mint_owner_view : Hash → Pubkey → RpcResult (Pubkey × SplTokenAdditionalData)
  mint_owner_view h key =
      if key == crates.native_mint_id
      then ok (crates.spl_token_id, crates.with_decimals crates.native_mint_decimals)
      else mint_account_view h (chain.account h key)

  abbrev pub token_program_view : Hash → TokenAccountsFilter → RpcResult (Pubkey × Option Pubkey)
  token_program_view h (mint key) = mint_owner_view h key >>=? λ found.
      if not (crates.is_known_spl_token_id found.0)
      then err (invalid_params crates (some "Invalid param: not a Token mint"))
      else ok (found.0, some key)
  token_program_view h (program program_id) =
      if crates.is_known_spl_token_id program_id
      then ok (program_id, none)
      else err (invalid_params crates (some "Invalid param: unrecognized Token program id"))

  -- The accounts that were found, parsed or encoded.
  abbrev pub keyed_view :
      Hash
      → Bool
      → UiAccountEncoding
      → Option UiDataSliceConfig
      → List (Pubkey × Account)
      → RpcResult (List RpcKeyedAccount)
  keyed_view h parsed encoding data_slice keyed =
      if parsed
      then ok (parsed_keyed_view crates chain h keyed)
      else encode_all crates encoding data_slice keyed

  -- The accounts with the slot of their block, when it is asked for.
  abbrev pub slotted_view : Bool → ℕ → List RpcKeyedAccount → OptionalContext (List RpcKeyedAccount)
  slotted_view wanted slot accounts =
      if wanted then context (record { slot = slot; value = accounts }) else no_context accounts

  module _ (lookup : IndexLookup) where
    abbrev pub owner_view :
        Hash → Pubkey → Pubkey → List RpcFilterType → Bool → RpcResult (List (Pubkey × Account))
    owner_view h program_id owner filters sort_results =
        get_indexed_keys crates lookup spl_token_owner owner sort_results >>=? λ keys. ok (
          chain.search h program_id keys
            (redundant_filters crates crates.spl_token_account_owner_offset owner filters))

    -- What the chain has of the accounts that the index lists.
    abbrev pub search_view :
        Hash
        → Option Pubkey
        → Option Pubkey
        → Pubkey
        → List RpcFilterType
        → Bool
        → RpcResult (List (Pubkey × Account))
    search_view h (some owner) mint_key program_id filters sort_results =
        owner_view h program_id owner filters sort_results
    search_view h none (some mint_key) program_id filters sort_results =
        get_indexed_keys crates lookup spl_token_mint mint_key sort_results >>=? λ keys. ok (
          chain.search h program_id keys
            (redundant_filters crates crates.spl_token_account_mint_offset mint_key filters))
    search_view h none none program_id filters sort_results =
        get_indexed_keys crates lookup program_id_index program_id sort_results >>=? λ keys.
        ok (chain.search h program_id keys filters)

    abbrev pub program_accounts_view :
        String
        → Option RpcProgramAccountsConfig
        → RpcResult (OptionalContext (List RpcKeyedAccount))
    program_accounts_view key_text config =
        let info = account_config_of crates config in
        let encoding = unwrap_or binary info.encoding in
        let h = block_of crates chain info.commitment in
        let filters = optimize_filters crates (filters_of config) in
        verify_pubkey crates key_text >>=? λ program_id.
        if ltb crates.max_get_program_account_filters (length (filters_of config))
        then err (
            invalid_params crates
              (some (too_many crates "filters" crates.max_get_program_account_filters)))
        else (verify_filters crates (filters_of config) >>=? λ checked.
            search_view h (get_spl_token_owner_filter crates program_id filters)
              (get_spl_token_mint_filter crates program_id filters) program_id filters
              (wants_sorting config)
            >>=? λ keyed.
                keyed_view h (crates.is_known_spl_token_id program_id && is_json_parsed encoding)
                  encoding info.data_slice keyed
                >>=? λ accounts. ok (slotted_view (wants_context config) (chain.slot h) accounts))

    abbrev pub token_accounts_view :
        String
        → RpcTokenAccountsFilter
        → Option RpcAccountInfoConfig
        → RpcResult (RpcResponse (List RpcKeyedAccount))
    token_accounts_view owner_text token_account_filter config =
        let info = unwrap_or crates.default_account_info_config config in
        let encoding = unwrap_or binary info.encoding in
        let h = block_of crates chain info.commitment in
        verify_pubkey crates owner_text >>=? λ owner.
        verify_token_account_filter crates token_account_filter >>=? λ token_filter.
        token_program_view h token_filter >>=? λ found.
        owner_view h found.0 owner (mint_filters crates found.1) true >>=? λ keyed.
        keyed_view h (is_json_parsed encoding) encoding info.data_slice keyed >>=? λ accounts.
        ok (record { slot = chain.slot h; value = accounts })
