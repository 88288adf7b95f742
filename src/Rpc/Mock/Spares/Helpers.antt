-- ===== src/Rpc/Mock/Spares/Helpers.antt =====
-- rpc/solana/mock/mod.rs: the reads of the mock node, and the helpers that are made of them.
use noir_sidecar.Prelude.{ℕ, String, Bool, not, ◌&&◌, Option, none, some, List, [], ◌∷◌, ◌==◌}
use noir_sidecar.Prelude.HashMap.{HashMap}
use noir_sidecar.Sdk.{Pubkey, Account, RpcFilterType}
use noir_sidecar.Rpc.Crates.{Crates, UiAccountEncoding, UiDataSliceConfig}
use noir_sidecar.Rpc.Verify.{TokenAccountsFilter, mint, program}
use noir_sidecar.Rpc.Encode.{is_json_parsed}
use noir_sidecar.Rpc.Mock.{MockCrates, MockIndex, search_keys, get_filtered_indexed_accounts}
use noir_sidecar.Rpc.Mock.Methods.{get_account, get_accounts, get_mock_hash_and_slot, get_timestamp}
use noir_sidecar.Rpc.Mock.Accounts.{
  mint_data, get_mint_owner_and_additional_data, get_token_program_id_and_mint,
  mint_additional_data, token_additional_data, get_parsed_token_account, encode_found,
  get_encoded_account, get_accounts_from_overwrites_or_node,
}
use noir_sidecar.Rpc.Mock.Tokens.{
  get_filtered_spl_token_accounts_by_owner, get_filtered_spl_token_accounts_by_mint,
  get_parsed_token_accounts, get_parsed_token_keyed_accounts, encode_resolved, get_encoded_accounts,
}
use noir_sidecar.Rpc.Mock.Search.{search_by, search, encode_keyed_accounts}
use noir_sidecar.Rpc.Mock.Spares.{
  Spares, pure-Spares, lift-Spares, >>=-Spares, if-Spares, execute-Spares, get_account-Reading,
  get_accounts-Reading, latest_blockhash-Reading,
}
use noir_sidecar.Rpc.Mock.Svm.{Vm, Bincode, Formats}

module _ (mock_crates : MockCrates) {V : Type 0} (vm : Vm V) (formats : Formats)
    (crates : Crates) where
  search_keys-Spares :
      (program_id : Pubkey) (filters : List RpcFilterType) (keys : List Pubkey)
      → Spares (search_keys mock_crates vm formats crates program_id filters keys)
  unfolding search_keys
  search_keys-Spares program_id filters [] = pure-Spares V []
  search_keys-Spares program_id filters (key ∷ keys) =
      >>=-Spares _ _
        (execute-Spares mock_crates vm formats crates formats.pubkey formats.account "getAccount"
          key (get_account-Reading mock_crates vm formats crates))
        (λ account.
          >>=-Spares _ _ (search_keys-Spares program_id filters keys) (λ accounts. pure-Spares V _))

  search_by-Spares :
      (accounts_index : MockIndex) (owner mint_key : Option Pubkey) (program_id : Pubkey)
      (filters : List RpcFilterType)
      → Spares
          (search_by mock_crates vm formats crates accounts_index owner mint_key program_id filters)
  unfolding search_by get_filtered_spl_token_accounts_by_owner
      get_filtered_spl_token_accounts_by_mint get_filtered_indexed_accounts
  search_by-Spares accounts_index (some owner) mint_key program_id filters =
      search_keys-Spares program_id _ _
  search_by-Spares accounts_index none (some mint_key) program_id filters =
      search_keys-Spares program_id _ _
  search_by-Spares accounts_index none none program_id filters = search_keys-Spares program_id _ _

  pub search-Spares :
      (accounts_index : MockIndex) (program_id : Pubkey) (filters : List RpcFilterType)
      → Spares (search mock_crates vm formats crates accounts_index program_id filters)
  unfolding search
  search-Spares accounts_index program_id filters =
      search_by-Spares accounts_index _ _ program_id filters

  pub by_owner-Spares :
      (accounts_index : MockIndex) (program_id owner : Pubkey) (filters : List RpcFilterType)
      → Spares (
          get_filtered_spl_token_accounts_by_owner mock_crates vm formats crates accounts_index
            program_id owner filters)
  unfolding get_filtered_spl_token_accounts_by_owner get_filtered_indexed_accounts
  by_owner-Spares accounts_index program_id owner filters = search_keys-Spares program_id _ _

  module _ (now : ℕ) (text : Bincode String) where
    get_account-Spares :
        (pubkey : Pubkey) → Spares (get_account mock_crates vm formats crates now text pubkey)
    unfolding get_account
    get_account-Spares pubkey =
        execute-Spares mock_crates vm formats crates formats.pubkey formats.account "getAccount"
          pubkey (get_account-Reading mock_crates vm formats crates)

    pub get_mock_hash_and_slot-Spares :
        Spares (get_mock_hash_and_slot mock_crates vm formats crates now text)
    unfolding get_mock_hash_and_slot
    get_mock_hash_and_slot-Spares =
        >>=-Spares _ _
          (execute-Spares mock_crates vm formats crates text formats.hash "latestBlockhash" ""
            (latest_blockhash-Reading mock_crates vm formats crates))
          (λ hash. pure-Spares V _)

    get_timestamp-Spares : Spares (get_timestamp mock_crates vm formats crates now text)
    unfolding get_timestamp
    get_timestamp-Spares = >>=-Spares _ _ get_mock_hash_and_slot-Spares (λ block. pure-Spares V _)

    mint_data-Spares :
        (account : Account) → Spares (mint_data mock_crates vm formats crates now text account)
    unfolding mint_data
    mint_data-Spares account = >>=-Spares _ _ get_timestamp-Spares (λ timestamp. lift-Spares V _)

    get_mint_owner_and_additional_data-Spares :
        (mint_key : Pubkey)
        → Spares
            (get_mint_owner_and_additional_data mock_crates vm formats crates now text mint_key)
    unfolding get_mint_owner_and_additional_data
    get_mint_owner_and_additional_data-Spares mint_key =
        if-Spares (mint_key == crates.native_mint_id) _ _ (pure-Spares V _) (
          >>=-Spares _ _ (get_account-Spares mint_key) (λ found.
            >>=-Spares _ _ (lift-Spares V _)
              (λ account. >>=-Spares _ _ (mint_data-Spares account) (λ data'. pure-Spares V _))))

    pub get_token_program_id_and_mint-Spares :
        (token_filter : TokenAccountsFilter)
        → Spares (get_token_program_id_and_mint mock_crates vm formats crates now text token_filter)
    unfolding get_token_program_id_and_mint
    get_token_program_id_and_mint-Spares (mint key) =
        >>=-Spares _ _ (get_mint_owner_and_additional_data-Spares key) (λ found.
          if-Spares (not (crates.is_known_spl_token_id found.0)) _ _ (lift-Spares V _)
            (pure-Spares V _))
    get_token_program_id_and_mint-Spares (program program_id) =
        if-Spares (crates.is_known_spl_token_id program_id) _ _ (pure-Spares V _) (lift-Spares V _)

    mint_additional_data-Spares :
        (found : Option Account)
        → Spares (mint_additional_data mock_crates vm formats crates now text found)
    unfolding mint_additional_data
    mint_additional_data-Spares none = pure-Spares V none
    mint_additional_data-Spares (some account) =
        >>=-Spares _ _ (mint_data-Spares account) (λ data'. pure-Spares V _)

    token_additional_data-Spares :
        (mint_key : Option Pubkey)
        → Spares (token_additional_data mock_crates vm formats crates now text mint_key)
    unfolding token_additional_data
    token_additional_data-Spares none = pure-Spares V none
    token_additional_data-Spares (some mint_key) =
        >>=-Spares _ _ (get_account-Spares mint_key) mint_additional_data-Spares

    get_parsed_token_account-Spares :
        (pubkey : Pubkey) (account : Account)
        → Spares (get_parsed_token_account mock_crates vm formats crates now text pubkey account)
    unfolding get_parsed_token_account
    get_parsed_token_account-Spares pubkey account =
        >>=-Spares _ _ (token_additional_data-Spares _) (λ additional. pure-Spares V _)

    encode_found-Spares :
        (pubkey : Pubkey) (encoding : UiAccountEncoding) (data_slice : Option UiDataSliceConfig)
        (found : Option Account)
        → Spares
            (encode_found mock_crates vm formats crates now text pubkey encoding data_slice found)
    unfolding encode_found
    encode_found-Spares pubkey encoding data_slice none = pure-Spares V none
    encode_found-Spares pubkey encoding data_slice (some account) =
        >>=-Spares _ _
          (if-Spares (crates.is_known_spl_token_id account.owner && is_json_parsed encoding) _ _
            (get_parsed_token_account-Spares pubkey account) (lift-Spares V _))
          (λ response. pure-Spares V _)

    pub get_encoded_account-Spares :
        (pubkey : Pubkey) (encoding : UiAccountEncoding) (data_slice : Option UiDataSliceConfig)
        → Spares
            (get_encoded_account mock_crates vm formats crates now text pubkey encoding data_slice)
    unfolding get_encoded_account
    get_encoded_account-Spares pubkey encoding data_slice =
        >>=-Spares _ _ (get_account-Spares pubkey) (encode_found-Spares pubkey encoding data_slice)

    overwrites-Spares :
        (pubkeys : List Pubkey) (overwrites : Option (HashMap Account))
        → Spares (
            get_accounts_from_overwrites_or_node mock_crates vm formats crates now text pubkeys
              overwrites)
    unfolding get_accounts_from_overwrites_or_node get_accounts
    overwrites-Spares pubkeys overwrites =
        >>=-Spares _ _
          (execute-Spares mock_crates vm formats crates formats.pubkeys formats.accounts
            "getAccounts" _ (get_accounts-Reading mock_crates vm formats crates))
          (λ answered. pure-Spares V _)

    get_parsed_token_accounts-Spares :
        (keyed_accounts : List (Pubkey × Account)) (overwrites : Option (HashMap Account))
        → Spares (
            get_parsed_token_accounts mock_crates vm formats crates now text keyed_accounts
              overwrites)
    unfolding get_parsed_token_accounts
    get_parsed_token_accounts-Spares keyed_accounts overwrites =
        >>=-Spares _ _ (overwrites-Spares _ overwrites)
          (λ answered. >>=-Spares _ _ get_timestamp-Spares (λ timestamp. pure-Spares V _))

    pub encode_keyed_accounts-Spares :
        (accounts_index : MockIndex) (encoding : UiAccountEncoding)
        (data_slice : Option UiDataSliceConfig) (parsed : Bool)
        (keyed_accounts : List (Pubkey × Account))
        → Spares (
            encode_keyed_accounts mock_crates vm formats crates accounts_index now text encoding
              data_slice parsed keyed_accounts)
    unfolding encode_keyed_accounts get_parsed_token_keyed_accounts
    encode_keyed_accounts-Spares accounts_index encoding data_slice parsed keyed_accounts =
        if-Spares parsed _ _
          (>>=-Spares _ _ (get_parsed_token_accounts-Spares keyed_accounts none)
            (λ accounts. pure-Spares V _))
          (lift-Spares V _)

    encode_resolved-Spares :
        (pubkeys : List Pubkey) (encoding : UiAccountEncoding)
        (data_slice : Option UiDataSliceConfig) (overwrites : Option (HashMap Account))
        (accounts : List (Pubkey × Option Account))
        → Spares (
            encode_resolved mock_crates vm formats crates now text pubkeys encoding data_slice
              overwrites accounts)
    unfolding encode_resolved
    encode_resolved-Spares pubkeys encoding data_slice overwrites accounts =
        if-Spares (is_json_parsed encoding) _ _
          (>>=-Spares _ _ (get_parsed_token_accounts-Spares _ overwrites)
            (λ parsed. pure-Spares V _))
          (pure-Spares V _)

    pub get_encoded_accounts-Spares :
        (pubkeys : List Pubkey) (encoding : UiAccountEncoding)
        (data_slice : Option UiDataSliceConfig) (overwrites : Option (HashMap Account))
        → Spares (
            get_encoded_accounts mock_crates vm formats crates now text pubkeys encoding data_slice
              overwrites)
    unfolding get_encoded_accounts
    get_encoded_accounts-Spares pubkeys encoding data_slice overwrites =
        >>=-Spares _ _ (overwrites-Spares pubkeys overwrites)
          (encode_resolved-Spares pubkeys encoding data_slice overwrites)
