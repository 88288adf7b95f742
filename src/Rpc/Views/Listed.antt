-- ===== src/Rpc/Views/Listed.antt =====
-- rpc/solana/mod.rs: the program of a search, and the accounts that the index lists, over a node of
-- the chain.
use noir_sidecar.Prelude.{Bool, not, Option, none, some, List, ◌==◌, if◌then◌else◌}
use noir_sidecar.Prelude.Result.{ok, err, ◌>>=◌ as ◌>>=?◌}
use noir_sidecar.Prelude.Words.{as_i64}
use noir_sidecar.Sdk.{Pubkey, Account, RpcFilterType}
use noir_sidecar.Client.{Hash}
use noir_sidecar.Client.Node.{Node, lift, ◌>>=◌}
use noir_sidecar.Client.Solana.{get_filtered_indexed_accounts}
use noir_sidecar.Client.Codec.{Codec}
use noir_sidecar.Client.Calls.Replies.{HexLaws}
use noir_sidecar.Client.Served.Reached.{Server}
use noir_sidecar.Client.Views.{
  Chain, TellsOf, Backs, Gives, lift-Gives, pure-Gives, >>=-Gives, if-Gives,
}
use noir_sidecar.Client.Views.Reads.{
  get_account-Gives, get_timestamp-Gives, get_filtered_indexed_accounts-Gives,
}
use noir_sidecar.Rpc.{RpcResult, ErrorObject}
use noir_sidecar.Rpc.Crates.{Crates, UiAccountEncoding, UiDataSliceConfig}
use noir_sidecar.Rpc.Verify.{TokenAccountsFilter, mint, program}
use noir_sidecar.Rpc.Encode.{get_additional_mint_data}
use noir_sidecar.Rpc.Accounts.{
  asked, mint_account_data, get_mint_owner_and_additional_data, get_token_program_id_and_mint,
}
use noir_sidecar.Rpc.Tokens.{
  IndexLookup, get_filtered_spl_token_accounts_by_owner, get_filtered_spl_token_accounts_by_mint,
  get_parsed_token_keyed_accounts,
}
use noir_sidecar.Rpc.Methods.Search.{encode_all, search_by}
use noir_sidecar.Rpc.Views.Accounts.{asked-Gives}
use noir_sidecar.Rpc.Views.Tokens.{get_parsed_token_keyed_accounts-Gives}
use noir_sidecar.Rpc.Views.Searches.{
  mint_account_view, mint_owner_view, token_program_view, keyed_view, owner_view, search_view,
}

module _ (crates : Crates) (lookup : IndexLookup) (codec : Codec) (laws : HexLaws codec)
    (server : Server) (Good : Node → Type 0) (backs : Backs server Good) (chain : Chain)
    (tells : TellsOf codec server chain) where
  mint_account_data-Gives :
      (h : Hash) (found : Option Account)
      → Gives Good (mint_account_data crates codec found h) (mint_account_view crates chain h found)
  unfolding mint_account_data
  mint_account_data-Gives h none = lift-Gives Good (err _)
  mint_account_data-Gives h (some account) =
      >>=-Gives Good _ _ (ok (as_i64 (chain.time h)))
        (λ timestamp. get_additional_mint_data crates account.contents timestamp >>=? λ data'.
          ok (account.owner, data'))
        (asked-Gives crates codec laws server Good backs chain tells _ _
          (get_timestamp-Gives codec laws server Good backs chain tells h))
        (λ timestamp.
          >>=-Gives Good _ _ (get_additional_mint_data crates account.contents timestamp) _
            (lift-Gives Good (get_additional_mint_data crates account.contents timestamp))
            (λ data'. pure-Gives Good ErrorObject _))

  mint_owner-Gives :
      (h : Hash) (key : Pubkey)
      → Gives Good
          (get_mint_owner_and_additional_data crates codec key h)
          (mint_owner_view crates chain h key)
  unfolding get_mint_owner_and_additional_data
  mint_owner-Gives h key =
      if-Gives Good (key == crates.native_mint_id) _ _ _ _ (pure-Gives Good ErrorObject _) (
        >>=-Gives Good _ _ (ok (chain.account h key))
          (λ found. mint_account_view crates chain h found)
          (asked-Gives crates codec laws server Good backs chain tells _ _
            (get_account-Gives codec laws server Good backs chain tells h key))
          (λ found. mint_account_data-Gives h found))

  pub token_program-Gives :
      (h : Hash) (token_filter : TokenAccountsFilter)
      → Gives Good
          (get_token_program_id_and_mint crates codec token_filter h)
          (token_program_view crates chain h token_filter)
  unfolding get_token_program_id_and_mint
  token_program-Gives h (mint key) =
      >>=-Gives Good _ _ (mint_owner_view crates chain h key) _ (mint_owner-Gives h key) (λ found.
        if-Gives Good (not (crates.is_known_spl_token_id found.0)) _ _ _ _ (lift-Gives Good (err _))
          (pure-Gives Good ErrorObject _))
  token_program-Gives h (program program_id) =
      if-Gives Good (crates.is_known_spl_token_id program_id) _ _ _ _
        (pure-Gives Good ErrorObject _) (lift-Gives Good (err _))

  -- The index lists some keys, and the node is asked for their accounts.
  asked_keys-Gives :
      (h : Hash) (program_id : Pubkey) (filters : List RpcFilterType)
      (listed : RpcResult (List Pubkey))
      → Gives Good
          (lift listed >>= λ keys.
            asked crates (get_filtered_indexed_accounts codec program_id keys filters (some h)))
          (listed >>=? λ keys. ok (chain.search h program_id keys filters))
  asked_keys-Gives h program_id filters listed =
      >>=-Gives Good _ _ listed (λ keys. ok (chain.search h program_id keys filters))
        (lift-Gives Good listed)
        (λ keys. asked-Gives crates codec laws server Good backs chain tells _ _ (
          get_filtered_indexed_accounts-Gives codec laws server Good backs chain tells h program_id
            keys filters))

  pub by_owner-Gives :
      (h : Hash) (program_id owner : Pubkey) (filters : List RpcFilterType) (sort_results : Bool)
      → Gives Good
          (get_filtered_spl_token_accounts_by_owner crates lookup codec program_id owner filters
            sort_results h)
          (owner_view crates chain lookup h program_id owner filters sort_results)
  unfolding get_filtered_spl_token_accounts_by_owner
  by_owner-Gives h program_id owner filters sort_results = asked_keys-Gives h program_id _ _

  pub search_by-Gives :
      (h : Hash) (owner mint_key : Option Pubkey) (program_id : Pubkey)
      (filters : List RpcFilterType) (sort_results : Bool)
      → Gives Good
          (search_by crates lookup codec owner mint_key program_id filters sort_results h)
          (search_view crates chain lookup h owner mint_key program_id filters sort_results)
  unfolding search_by get_filtered_spl_token_accounts_by_owner
      get_filtered_spl_token_accounts_by_mint
  search_by-Gives h (some owner) mint_key program_id filters sort_results =
      asked_keys-Gives h program_id _ _
  search_by-Gives h none (some mint_key) program_id filters sort_results =
      asked_keys-Gives h program_id _ _
  search_by-Gives h none none program_id filters sort_results =
      asked_keys-Gives h program_id filters _

  pub keyed-Gives :
      (h : Hash) (parsed : Bool) (encoding : UiAccountEncoding)
      (data_slice : Option UiDataSliceConfig) (keyed : List (Pubkey × Account))
      → Gives Good
          (if parsed
            then get_parsed_token_keyed_accounts crates codec keyed h
            else lift (encode_all crates encoding data_slice keyed))
          (keyed_view crates chain h parsed encoding data_slice keyed)
  keyed-Gives h parsed encoding data_slice keyed =
      if-Gives Good parsed _ _ _ _
        (get_parsed_token_keyed_accounts-Gives crates codec laws server Good backs chain tells h
          keyed)
        (lift-Gives Good (encode_all crates encoding data_slice keyed))
