-- ===== src/Rpc/Views/Searched.antt =====
-- rpc/solana/mod.rs, `get_program_accounts` and `get_token_accounts_by_owner`, over a node of the
-- chain and any accounts index.
use noir_sidecar.Prelude.{ℕ, String, Bool, true, false, ◌&&◌, Option, List, length, ltb, unwrap_or}
use noir_sidecar.Prelude.Result.{ok, err, ◌>>=◌ as ◌>>=?◌}
use noir_sidecar.Sdk.{Pubkey, RpcFilterType}
use noir_sidecar.Client.{Hash}
use noir_sidecar.Client.Node.{Node, pure}
use noir_sidecar.Client.Codec.{Codec}
use noir_sidecar.Client.Calls.Replies.{HexLaws}
use noir_sidecar.Client.Served.Reached.{Server}
use noir_sidecar.Client.Views.{
  Chain, TellsOf, Backs, Gives, lift-Gives, pure-Gives, >>=-Gives, if-Gives,
}
use noir_sidecar.Rpc.{ErrorObject}
use noir_sidecar.Rpc.Crates.{Crates, binary, RpcAccountInfoConfig, RpcProgramAccountsConfig}
use noir_sidecar.Rpc.Verify.{verify_pubkey, RpcTokenAccountsFilter, verify_token_account_filter}
use noir_sidecar.Rpc.Filters.{
  optimize_filters, get_spl_token_owner_filter, get_spl_token_mint_filter,
}
use noir_sidecar.Rpc.Encode.{is_json_parsed}
use noir_sidecar.Rpc.Tokens.{IndexLookup}
use noir_sidecar.Rpc.Accounts.{RpcKeyedAccount}
use noir_sidecar.Rpc.Methods.{context_of}
use noir_sidecar.Rpc.Methods.Search.{
  filters_of, wants_context, wants_sorting, account_config_of, verify_filters, with_slot,
  mint_filters, search, get_program_accounts, get_token_accounts_by_owner,
}
use noir_sidecar.Rpc.Views.{block_of}
use noir_sidecar.Rpc.Views.Accounts.{get_hash_and_slot-Gives}
use noir_sidecar.Rpc.Views.Searches.{
  token_program_view, keyed_view, slotted_view, owner_view, search_view, program_accounts_view,
  token_accounts_view,
}
use noir_sidecar.Rpc.Views.Listed.{
  token_program-Gives, by_owner-Gives, search_by-Gives, keyed-Gives,
}

module _ (crates : Crates) (lookup : IndexLookup) (codec : Codec) (laws : HexLaws codec)
    (server : Server) (Good : Node → Type 0) (backs : Backs server Good) (chain : Chain)
    (tells : TellsOf codec server chain) where
  search-Gives :
      (h : Hash) (program_id : Pubkey) (filters : List RpcFilterType) (sort_results : Bool)
      → Gives Good (search crates lookup codec program_id filters sort_results h) (
          search_view crates chain lookup h
            (get_spl_token_owner_filter crates program_id filters)
            (get_spl_token_mint_filter crates program_id filters)
            program_id
            filters
            sort_results)
  unfolding search
  search-Gives h program_id filters sort_results =
      search_by-Gives crates lookup codec laws server Good backs chain tells h
        (get_spl_token_owner_filter crates program_id filters)
        (get_spl_token_mint_filter crates program_id filters) program_id filters sort_results

  slotted-Gives :
      (wanted : Bool) (slot : ℕ) (accounts : List RpcKeyedAccount)
      → Gives Good {E = ErrorObject}
          (pure (with_slot crates wanted slot accounts))
          (ok (slotted_view crates chain wanted slot accounts))
  unfolding with_slot
  slotted-Gives true slot accounts = pure-Gives Good ErrorObject _
  slotted-Gives false slot accounts = pure-Gives Good ErrorObject _

  pub program_accounts-Gives :
      (key_text : String) (config : Option RpcProgramAccountsConfig)
      → Gives Good
          (get_program_accounts crates lookup codec key_text config)
          (program_accounts_view crates chain lookup key_text config)
  unfolding get_program_accounts
  program_accounts-Gives key_text config =
      let info = account_config_of crates config in
      let encoding = unwrap_or binary info.encoding in
      let h = block_of crates chain info.commitment in
      let filters = optimize_filters crates (filters_of config) in
      >>=-Gives Good _ _ (verify_pubkey crates key_text) _
        (lift-Gives Good (verify_pubkey crates key_text))
        (λ program_id.
          if-Gives Good (ltb crates.max_get_program_account_filters (length (filters_of config))) _
            _ _ _ (lift-Gives Good (err _))
            (>>=-Gives Good _ _ (verify_filters crates (filters_of config)) _
              (lift-Gives Good (verify_filters crates (filters_of config)))
              (λ checked.
                >>=-Gives Good _ _ (ok (h, chain.slot h))
                  (λ block.
                    search_view crates chain lookup block.0
                      (get_spl_token_owner_filter crates program_id filters)
                      (get_spl_token_mint_filter crates program_id filters) program_id filters
                      (wants_sorting config)
                    >>=? λ keyed.
                        keyed_view crates chain block.0
                          (crates.is_known_spl_token_id program_id && is_json_parsed encoding)
                          encoding info.data_slice keyed
                        >>=? λ accounts.
                            ok (slotted_view crates chain (wants_context config) block.1 accounts))
                  (get_hash_and_slot-Gives crates codec laws server Good backs chain tells
                    (context_of info))
                  (λ block.
                    >>=-Gives Good _ _ _ _
                      (search-Gives block.0 program_id filters (wants_sorting config))
                      (λ keyed.
                        >>=-Gives Good _ _ _ _
                          (keyed-Gives crates lookup codec laws server Good backs chain tells
                            block.0
                            (crates.is_known_spl_token_id program_id && is_json_parsed encoding)
                            encoding info.data_slice keyed)
                          (λ accounts. slotted-Gives (wants_context config) block.1 accounts))))))

  pub token_accounts-Gives :
      (owner_text : String) (token_account_filter : RpcTokenAccountsFilter)
      (config : Option RpcAccountInfoConfig)
      → Gives Good
          (get_token_accounts_by_owner crates lookup codec owner_text token_account_filter config)
          (token_accounts_view crates chain lookup owner_text token_account_filter config)
  unfolding get_token_accounts_by_owner
  token_accounts-Gives owner_text token_account_filter config =
      let info = unwrap_or crates.default_account_info_config config in
      let encoding = unwrap_or binary info.encoding in
      let h = block_of crates chain info.commitment in
      >>=-Gives Good _ _ (verify_pubkey crates owner_text) _
        (lift-Gives Good (verify_pubkey crates owner_text))
        (λ owner.
          >>=-Gives Good _ _ (verify_token_account_filter crates token_account_filter) _
            (lift-Gives Good (verify_token_account_filter crates token_account_filter))
            (λ token_filter.
              >>=-Gives Good _ _ (ok (h, chain.slot h))
                (λ block. token_program_view crates chain block.0 token_filter >>=? λ found.
                  owner_view crates chain lookup block.0 found.0 owner (mint_filters crates found.1)
                    true
                  >>=? λ keyed.
                      keyed_view crates chain block.0 (is_json_parsed encoding) encoding
                        info.data_slice keyed
                      >>=? λ accounts. ok (record { slot = block.1; value = accounts }))
                (get_hash_and_slot-Gives crates codec laws server Good backs chain tells
                  (context_of info))
                (λ block.
                  >>=-Gives Good _ _ _ _
                    (token_program-Gives crates lookup codec laws server Good backs chain tells
                      block.0 token_filter)
                    (λ found.
                      >>=-Gives Good _ _ _ _
                        (by_owner-Gives crates lookup codec laws server Good backs chain tells
                          block.0 found.0 owner (mint_filters crates found.1) true)
                        (λ keyed.
                          >>=-Gives Good _ _ _ _
                            (keyed-Gives crates lookup codec laws server Good backs chain tells
                              block.0 (is_json_parsed encoding) encoding info.data_slice keyed)
                            (λ accounts. pure-Gives Good ErrorObject _))))))
