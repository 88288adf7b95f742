-- ===== src/Rpc/Methods/Search.antt =====
-- rpc/solana/mod.rs, `get_program_accounts` and `get_token_accounts_by_owner`: the methods that search
-- through the accounts index.
pub mod Answers
use noir_sidecar.Prelude.{
  ℕ, String, Bool, true, false, ◌&&◌, Option, none, some, List, [], ◌∷◌, map, unwrap_or, length,
  ltb, if◌then◌else◌,
}
use noir_sidecar.Prelude.Result.{ok, collect}
use noir_sidecar.Prelude.Result.{◌>>=◌ as ◌>>=?◌}
use noir_sidecar.Sdk.{Pubkey, Account, RpcFilterType, memcmp}
use noir_sidecar.Client.{Hash}
use noir_sidecar.Client.Node.{pure, fail, lift, ◌>>=◌}
use noir_sidecar.Client.Codec.{Codec}
use noir_sidecar.Client.Solana.{get_filtered_indexed_accounts}
use noir_sidecar.Index.{program_id as program_id_index}
use noir_sidecar.Rpc.{Rpc, RpcResult}
use noir_sidecar.Rpc.Crates.{
  Crates, UiAccountEncoding, binary, UiDataSliceConfig, RpcAccountInfoConfig,
  RpcProgramAccountsConfig,
}
use noir_sidecar.Rpc.Verify.{
  invalid_params, verify_filter, verify_pubkey, RpcTokenAccountsFilter, verify_token_account_filter,
}
use noir_sidecar.Rpc.Filters.{
  optimize_filters, get_spl_token_owner_filter, get_spl_token_mint_filter,
}
use noir_sidecar.Rpc.Encode.{is_json_parsed, encode_account}
use noir_sidecar.Rpc.Accounts.{RpcKeyedAccount, asked, get_token_program_id_and_mint}
use noir_sidecar.Rpc.Tokens.{
  IndexLookup, get_indexed_keys, get_filtered_spl_token_accounts_by_owner,
  get_filtered_spl_token_accounts_by_mint, get_parsed_token_keyed_accounts,
}
use noir_sidecar.Rpc.Methods.{RpcResponse, context_of, too_many, get_hash_and_slot}

pub data OptionalContext (A : Type 0) : Type 0 where
  context : RpcResponse A → OptionalContext A
  no_context : A → OptionalContext A

abbrev pub filters_of : Option RpcProgramAccountsConfig → List RpcFilterType
filters_of none = []
filters_of (some config) = unwrap_or [] config.filters

abbrev pub wants_context : Option RpcProgramAccountsConfig → Bool
wants_context none = false
wants_context (some config) = unwrap_or false config.with_context

abbrev pub wants_sorting : Option RpcProgramAccountsConfig → Bool
wants_sorting none = true
wants_sorting (some config) = unwrap_or true config.sort_results

module _ (crates : Crates) where
  abbrev pub account_config_of : Option RpcProgramAccountsConfig → RpcAccountInfoConfig
  account_config_of none = crates.default_account_info_config
  account_config_of (some config) = config.account_config

  -- The loop over the filters: the first one that is refused ends it.
  unfoldable pub verify_filters : List RpcFilterType → RpcResult (Unit {0})
  verify_filters [] = ok tt
  verify_filters (f ∷ fs) = verify_filter crates f >>=? λ _. verify_filters fs

  encode_keyed :
      UiAccountEncoding → Option UiDataSliceConfig → Pubkey × Account → RpcResult RpcKeyedAccount
  encode_keyed encoding data_slice p =
      encode_account crates p.1 p.0 encoding data_slice >>=? λ account.
      ok (record { pubkey = crates.pubkey_to_string p.0; account = account })

  unfoldable pub encode_all :
      UiAccountEncoding
      → Option UiDataSliceConfig
      → List (Pubkey × Account)
      → RpcResult (List RpcKeyedAccount)
  unfolding encode_keyed
  encode_all encoding data_slice keyed_accounts =
      collect (map (λ p. encode_keyed encoding data_slice p) keyed_accounts)

  unfoldable pub with_slot :
      Bool → ℕ → List RpcKeyedAccount → OptionalContext (List RpcKeyedAccount)
  with_slot true slot accounts = context (record { slot = slot; value = accounts })
  with_slot false slot accounts = no_context accounts

  -- The optional filter on the mint.
  unfoldable pub mint_filters : Option Pubkey → List RpcFilterType
  mint_filters none = []
  mint_filters (some mint) = memcmp (crates.new_raw_bytes 0 (crates.pubkey_to_bytes mint)) ∷ []

  module _ (lookup : IndexLookup) (codec : Codec) where
    -- The three ways of the search: by the owner, by the mint, by the program.
    unfoldable pub search_by :
        Option Pubkey
        → Option Pubkey
        → Pubkey
        → List RpcFilterType
        → Bool
        → Hash
        → Rpc (List (Pubkey × Account))
    search_by (some owner) mint program_id filters sort_results at_hash =
        get_filtered_spl_token_accounts_by_owner crates lookup codec program_id owner filters
          sort_results at_hash
    search_by none (some mint) program_id filters sort_results at_hash =
        get_filtered_spl_token_accounts_by_mint crates lookup codec program_id mint filters
          sort_results at_hash
    search_by none none program_id filters sort_results at_hash = do
      indexed_keys ← lift (get_indexed_keys crates lookup program_id_index program_id sort_results)
      asked crates
          (get_filtered_indexed_accounts codec program_id indexed_keys filters (some at_hash))

    -- The search, at optimized filters.
    unfoldable pub search :
        Pubkey → List RpcFilterType → Bool → Hash → Rpc (List (Pubkey × Account))
    unfolding search_by
    search program_id filters sort_results at_hash =
        search_by (get_spl_token_owner_filter crates program_id filters)
          (get_spl_token_mint_filter crates program_id filters) program_id filters sort_results
          at_hash

    unfoldable pub get_program_accounts :
        String → Option RpcProgramAccountsConfig → Rpc (OptionalContext (List RpcKeyedAccount))
    unfolding search verify_filters encode_all with_slot
    get_program_accounts program_id_str config =
        let info = account_config_of config in
        let encoding = unwrap_or binary info.encoding in
        lift (verify_pubkey crates program_id_str) >>= λ program_id.
        if ltb crates.max_get_program_account_filters (length (filters_of config))
        then fail (
            invalid_params crates
              (some (too_many crates "filters" crates.max_get_program_account_filters)))
        else (do
          checked ← lift (verify_filters (filters_of config))
          block ← get_hash_and_slot crates codec (context_of info)
          keyed_accounts ←
              search program_id (optimize_filters crates (filters_of config)) (wants_sorting config)
                block.0
          accounts ←
              (if crates.is_known_spl_token_id program_id && is_json_parsed encoding
                then get_parsed_token_keyed_accounts crates codec keyed_accounts block.0
                else lift (encode_all encoding info.data_slice keyed_accounts))
          pure (with_slot (wants_context config) block.1 accounts))

    unfoldable pub get_token_accounts_by_owner :
        String
        → RpcTokenAccountsFilter
        → Option RpcAccountInfoConfig
        → Rpc (RpcResponse (List RpcKeyedAccount))
    unfolding encode_all mint_filters
    get_token_accounts_by_owner owner_str token_account_filter config =
        let info = unwrap_or crates.default_account_info_config config in
        let encoding = unwrap_or binary info.encoding in
        (do
          owner ← lift (verify_pubkey crates owner_str)
          token_filter ← lift (verify_token_account_filter crates token_account_filter)
          block ← get_hash_and_slot crates codec (context_of info)
          found ← get_token_program_id_and_mint crates codec token_filter block.0
          keyed_accounts ←
              get_filtered_spl_token_accounts_by_owner crates lookup codec found.0 owner
                (mint_filters found.1) true block.0
          accounts ←
              (if is_json_parsed encoding
                then get_parsed_token_keyed_accounts crates codec keyed_accounts block.0
                else lift (encode_all encoding info.data_slice keyed_accounts))
          pure (record { slot = block.1; value = accounts }))
