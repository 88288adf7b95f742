-- ===== src/Rpc/Tokens.antt =====
-- rpc/solana/mod.rs: token accounts, found by the index, parsed with the data of their mints, and the
-- encoding of several accounts at once.
pub mod Encoded
pub mod Pushed
use Prim.Native.String
use noir_sidecar.Prelude.{
  ◌++◌, ℕ, String, Bool, Option, none, some, List, [], ◌∷◌, map, filter_map, option_map, or_else,
  flatten, if◌then◌else◌,
}
use noir_sidecar.Prelude.Result.{Result, ok, err, map_err}
use noir_sidecar.Prelude.HashMap.{HashMap, get, collect, values}
use noir_sidecar.Sdk.{Pubkey, Account, RpcFilterType, memcmp, token_account_state}
use noir_sidecar.Client.{Hash}
use noir_sidecar.Client.Node.{pure, lift, ◌>>=◌}
use noir_sidecar.Client.Codec.{Codec}
use noir_sidecar.Client.Solana.{get_timestamp, get_filtered_indexed_accounts}
use noir_sidecar.Index.{Error as IndexError, AccountIndex, spl_token_mint, spl_token_owner}
use noir_sidecar.Rpc.{Rpc, RpcResult}
use noir_sidecar.Rpc.Crates.{
  Crates, UiAccountEncoding, json_parsed, UiDataSliceConfig, UiAccount, AccountAdditionalData,
}
use noir_sidecar.Rpc.Verify.{internal_error}
use noir_sidecar.Rpc.Encode.{◌+++◌, is_json_parsed, get_multiple_additional_mint_data}
use noir_sidecar.Rpc.Accounts.{
  RpcKeyedAccount, is_json, filter_known_spl_tokens, get_multiple_token_account_mint, asked,
  get_accounts_from_overwrites_or_node,
}

-- The accounts index as a method reads it; the implementations are those of `Index`.
abbrev pub IndexLookup : Type 0
IndexLookup = AccountIndex → Pubkey → Bool → Result IndexError (List Pubkey)

-- The mints that were found, by key.
unfoldable pub found_mints : List (Pubkey × Option Account) → HashMap Account
found_mints answered =
    collect (filter_map (λ p. option_map (λ account. (p.0, account)) p.1) answered)

additional_data_of :
    HashMap Pubkey → HashMap AccountAdditionalData → Pubkey → Option AccountAdditionalData
additional_data_of mint_pubkeys additional pubkey =
    flatten (option_map (λ mint_pubkey. get mint_pubkey additional) (get pubkey mint_pubkeys))

-- The response of the parsed encoding: a token account if there is one, else a plain one.
unfoldable pub merge_parsed :
    List Pubkey → HashMap UiAccount → HashMap (Option UiAccount) → List (Option UiAccount)
merge_parsed pubkeys spl_tokens others =
    map (λ pubkey. or_else (get pubkey spl_tokens) (flatten (get pubkey others))) pubkeys

module _ (crates : Crates) where
  unfoldable pub parse_accounts :
      List (Pubkey × Account) → HashMap Pubkey → HashMap AccountAdditionalData → HashMap UiAccount
  unfolding additional_data_of
  parse_accounts keyed_accounts mint_pubkeys additional = collect (
      map
        (λ p. (
          p.0,
          crates.encode_ui_account p.0 p.1 json_parsed
              (additional_data_of mint_pubkeys additional p.0) none,
        ))
        keyed_accounts)

  -- Only what the encoder could parse is kept.
  unfoldable pub keep_parsed : Pubkey × UiAccount → Option RpcKeyedAccount
  keep_parsed p =
      if is_json p.1.content
      then some (record { pubkey = crates.pubkey_to_string p.0; account = p.1 })
      else none

  unfoldable pub encode_plain :
      UiAccountEncoding → Option UiDataSliceConfig → Pubkey × Option Account → Option UiAccount
  encode_plain encoding data_slice p =
      option_map (λ account. crates.encode_ui_account p.0 account encoding none data_slice) p.1

  -- The filters that the two searches add: the token-account state, and the key at its offset.
  unfoldable pub redundant_filters : ℕ → Pubkey → List RpcFilterType → List RpcFilterType
  redundant_filters offset key filters =
      filters
      ++ (token_account_state
          ∷ memcmp (crates.new_raw_bytes offset (crates.pubkey_to_bytes key))
          ∷ [])

  module _ (lookup : IndexLookup) where
    unfoldable pub get_indexed_keys : AccountIndex → Pubkey → Bool → RpcResult (List Pubkey)
    get_indexed_keys index index_key sort_results =
        map_err
          (λ e. internal_error crates (
            some (
              "Failed to get indexed keys. index: "
              +++ crates.debug_account_index index
              +++ ", index_key: "
              +++ crates.pubkey_to_string index_key)))
          (lookup index index_key sort_results)

    module _ (codec : Codec) where
      unfoldable pub get_filtered_spl_token_accounts_by_owner :
          Pubkey → Pubkey → List RpcFilterType → Bool → Hash → Rpc (List (Pubkey × Account))
      unfolding get_indexed_keys redundant_filters
      get_filtered_spl_token_accounts_by_owner program_id owner_key filters sort_results at_hash =
          do
            indexed_keys ← lift (get_indexed_keys spl_token_owner owner_key sort_results)
            asked crates (
                get_filtered_indexed_accounts codec program_id indexed_keys
                  (redundant_filters crates.spl_token_account_owner_offset owner_key filters)
                  (some at_hash))

      unfoldable pub get_filtered_spl_token_accounts_by_mint :
          Pubkey → Pubkey → List RpcFilterType → Bool → Hash → Rpc (List (Pubkey × Account))
      unfolding get_indexed_keys redundant_filters
      get_filtered_spl_token_accounts_by_mint program_id mint_key filters sort_results at_hash = do
        indexed_keys ← lift (get_indexed_keys spl_token_mint mint_key sort_results)
        asked crates (
            get_filtered_indexed_accounts codec program_id indexed_keys
              (redundant_filters crates.spl_token_account_mint_offset mint_key filters)
              (some at_hash))

  module _ (codec : Codec) where
    unfoldable pub get_parsed_token_accounts :
        List (Pubkey × Account) → Hash → Option (HashMap Account) → Rpc (HashMap UiAccount)
    unfolding parse_accounts found_mints
    get_parsed_token_accounts keyed_accounts at_hash overwrites =
        let mint_pubkeys = get_multiple_token_account_mint crates keyed_accounts in
        (do
          answered ←
              get_accounts_from_overwrites_or_node crates codec
                (values (crates.iterate_mints mint_pubkeys)) overwrites at_hash
          timestamp ← asked crates (get_timestamp codec at_hash)
          pure (
              parse_accounts keyed_accounts mint_pubkeys
                (get_multiple_additional_mint_data crates (found_mints answered) timestamp)))

    unfoldable pub get_parsed_token_keyed_accounts :
        List (Pubkey × Account) → Hash → Rpc (List RpcKeyedAccount)
    unfolding keep_parsed get_parsed_token_accounts
    get_parsed_token_keyed_accounts keyed_accounts at_hash = do
      parsed ← get_parsed_token_accounts keyed_accounts at_hash none
      pure (filter_map (λ p. keep_parsed p) (crates.iterate_parsed parsed))

    -- What is done with the accounts that were found.
    unfoldable pub encode_resolved :
        List Pubkey
        → UiAccountEncoding
        → Option UiDataSliceConfig
        → Hash
        → Option (HashMap Account)
        → List (Pubkey × Option Account)
        → Rpc (List (Option UiAccount))
    unfolding encode_plain merge_parsed get_parsed_token_accounts
    encode_resolved pubkeys encoding data_slice at_hash overwrites accounts =
        if is_json_parsed encoding
        then (let (spl_tokens, others) = filter_known_spl_tokens crates accounts in
            (do
              parsed ← get_parsed_token_accounts spl_tokens at_hash overwrites
              pure (
                  merge_parsed pubkeys parsed
                    (collect (map (λ p. (p.0, encode_plain encoding data_slice p)) others)))))
        else pure (map (λ p. encode_plain encoding data_slice p) accounts)

    unfoldable pub get_encoded_accounts :
        List Pubkey
        → UiAccountEncoding
        → Option UiDataSliceConfig
        → Hash
        → Option (HashMap Account)
        → Rpc (List (Option UiAccount))
    unfolding encode_resolved
    get_encoded_accounts pubkeys encoding data_slice at_hash overwrites = do
      accounts ← get_accounts_from_overwrites_or_node crates codec pubkeys overwrites at_hash
      encode_resolved pubkeys encoding data_slice at_hash overwrites accounts
