-- ===== src/Rpc/Mock/Tokens.antt =====
-- rpc/solana/mock/mod.rs: the token accounts of the mock node, found by its index and parsed with the
-- data of their mints.
use noir_sidecar.Prelude.{ℕ, String, Option, none, List, map, filter_map, if◌then◌else◌}
use noir_sidecar.Prelude.HashMap.{HashMap, collect, values}
use noir_sidecar.Sdk.{Pubkey, Account, RpcFilterType}
use noir_sidecar.Index.{spl_token_mint, spl_token_owner}
use noir_sidecar.Rpc.Crates.{Crates, UiAccountEncoding, UiDataSliceConfig, UiAccount}
use noir_sidecar.Rpc.Encode.{is_json_parsed, get_multiple_additional_mint_data}
use noir_sidecar.Rpc.Accounts.{
  RpcKeyedAccount, filter_known_spl_tokens, get_multiple_token_account_mint,
}
use noir_sidecar.Rpc.Tokens.{
  redundant_filters, found_mints, parse_accounts, keep_parsed, encode_plain, merge_parsed,
}
use noir_sidecar.Rpc.Mock.{
  MockCrates, MockIndex, Mock, ◌>>=◌, pure, get_indexed_keys, get_filtered_indexed_accounts,
}
use noir_sidecar.Rpc.Mock.Methods.{get_timestamp}
use noir_sidecar.Rpc.Mock.Accounts.{get_accounts_from_overwrites_or_node}
use noir_sidecar.Rpc.Mock.Svm.{Vm, Bincode, Formats}

module _ (mock_crates : MockCrates) {V : Type 0} (vm : Vm V) (formats : Formats)
    (crates : Crates) where
  unfoldable pub get_filtered_spl_token_accounts_by_owner :
      MockIndex → Pubkey → Pubkey → List RpcFilterType → Mock V (List (Pubkey × Account))
  get_filtered_spl_token_accounts_by_owner accounts_index program_id owner_key filters =
      get_filtered_indexed_accounts mock_crates vm formats crates program_id
        (get_indexed_keys accounts_index spl_token_owner owner_key)
        (redundant_filters crates crates.spl_token_account_owner_offset owner_key filters)

  unfoldable pub get_filtered_spl_token_accounts_by_mint :
      MockIndex → Pubkey → Pubkey → List RpcFilterType → Mock V (List (Pubkey × Account))
  get_filtered_spl_token_accounts_by_mint accounts_index program_id mint_key filters =
      get_filtered_indexed_accounts mock_crates vm formats crates program_id
        (get_indexed_keys accounts_index spl_token_mint mint_key)
        (redundant_filters crates crates.spl_token_account_mint_offset mint_key filters)

  module _ (now : ℕ) (text : Bincode String) where
    unfoldable pub get_parsed_token_accounts :
        List (Pubkey × Account) → Option (HashMap Account) → Mock V (HashMap UiAccount)
    get_parsed_token_accounts keyed_accounts overwrites =
        let mint_pubkeys = get_multiple_token_account_mint crates keyed_accounts in
        (do
          answered ←
              get_accounts_from_overwrites_or_node mock_crates vm formats crates now text
                (values (crates.iterate_mints mint_pubkeys)) overwrites
          timestamp ← get_timestamp mock_crates vm formats crates now text
          pure (
              parse_accounts crates keyed_accounts mint_pubkeys
                (get_multiple_additional_mint_data crates (found_mints answered) timestamp)))

    unfoldable pub get_parsed_token_keyed_accounts :
        List (Pubkey × Account) → Mock V (List RpcKeyedAccount)
    unfolding get_parsed_token_accounts
    get_parsed_token_keyed_accounts keyed_accounts = do
      parsed ← get_parsed_token_accounts keyed_accounts none
      pure (filter_map (λ p. keep_parsed crates p) (crates.iterate_parsed parsed))

    -- What is done with the accounts that were found.
    unfoldable pub encode_resolved :
        List Pubkey
        → UiAccountEncoding
        → Option UiDataSliceConfig
        → Option (HashMap Account)
        → List (Pubkey × Option Account)
        → Mock V (List (Option UiAccount))
    unfolding get_parsed_token_accounts
    encode_resolved pubkeys encoding data_slice overwrites accounts =
        if is_json_parsed encoding
        then (let (spl_tokens, others) = filter_known_spl_tokens crates accounts in
            (do
              parsed ← get_parsed_token_accounts spl_tokens overwrites
              pure (
                  merge_parsed pubkeys parsed (
                    collect (map (λ p. (p.0, encode_plain crates encoding data_slice p)) others)))))
        else pure (map (λ p. encode_plain crates encoding data_slice p) accounts)

    unfoldable pub get_encoded_accounts :
        List Pubkey
        → UiAccountEncoding
        → Option UiDataSliceConfig
        → Option (HashMap Account)
        → Mock V (List (Option UiAccount))
    unfolding encode_resolved
    get_encoded_accounts pubkeys encoding data_slice overwrites = do
      accounts ←
          get_accounts_from_overwrites_or_node mock_crates vm formats crates now text pubkeys
            overwrites
      encode_resolved pubkeys encoding data_slice overwrites accounts
