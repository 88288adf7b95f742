-- ===== src/Rpc/Mock/Accounts.antt =====
-- rpc/solana/mock/mod.rs: the accounts that the methods of the mock node read and encode.
use noir_sidecar.Prelude.{String, not, ◌&&◌, Option, none, some, List, [], ◌==◌, if◌then◌else◌}
use noir_sidecar.Prelude.Result.{ok_or, err}
use noir_sidecar.Prelude.{ℕ}
use noir_sidecar.Prelude.HashMap.{HashMap, collect}
use noir_sidecar.Sdk.{Pubkey, Account}
use noir_sidecar.Rpc.Crates.{
  Crates, UiAccountEncoding, json_parsed, UiDataSliceConfig, UiAccount, SplTokenAdditionalData,
  AccountAdditionalData,
}
use noir_sidecar.Rpc.Verify.{invalid_params, TokenAccountsFilter, mint, program}
use noir_sidecar.Rpc.Encode.{is_json_parsed, encode_account, get_additional_mint_data}
use noir_sidecar.Rpc.Accounts.{split_overwrites, join_accounts}
use noir_sidecar.Rpc.Mock.{MockCrates, Mock, ◌>>=◌, pure, lift}
use noir_sidecar.Rpc.Mock.Methods.{get_account, get_accounts, get_timestamp}
use noir_sidecar.Rpc.Mock.Svm.{Vm, Bincode, Formats}

module _ (mock_crates : MockCrates) {V : Type 0} (vm : Vm V) (formats : Formats) (crates : Crates)
    (now : ℕ) (text : Bincode String) where
  -- The data of a mint that was read, at the time.
  unfoldable pub mint_data : Account → Mock V SplTokenAdditionalData
  mint_data mint_account = do
    timestamp ← get_timestamp mock_crates vm formats crates now text
    lift (get_additional_mint_data crates mint_account.contents timestamp)

  unfoldable pub get_mint_owner_and_additional_data :
      Pubkey → Mock V (Pubkey × SplTokenAdditionalData)
  unfolding mint_data
  get_mint_owner_and_additional_data mint_key =
      if mint_key == crates.native_mint_id
      then pure (crates.spl_token_id, crates.with_decimals crates.native_mint_decimals)
      else (do
        found ← get_account mock_crates vm formats crates now text mint_key
        mint_account ←
            lift (ok_or (invalid_params crates (some "Invalid param: could not find mint")) found)
        data' ← mint_data mint_account
        pure (mint_account.owner, data'))

  unfoldable pub get_token_program_id_and_mint :
      TokenAccountsFilter → Mock V (Pubkey × Option Pubkey)
  unfolding get_mint_owner_and_additional_data
  get_token_program_id_and_mint (mint key) = do
    found ← get_mint_owner_and_additional_data key
    (if not (crates.is_known_spl_token_id found.0)
        then lift (err (invalid_params crates (some "Invalid param: not a Token mint")))
        else pure (found.0, some key))
  get_token_program_id_and_mint (program program_id) =
      if crates.is_known_spl_token_id program_id
      then pure (program_id, none)
      else lift (err (invalid_params crates (some "Invalid param: unrecognized Token program id")))

  -- The additional data of one mint, when the machine knows the mint.
  unfoldable pub mint_additional_data : Option Account → Mock V (Option AccountAdditionalData)
  unfolding mint_data
  mint_additional_data none = pure none
  mint_additional_data (some mint_account) = do
    data' ← mint_data mint_account
    pure (some (record { spl_token_additional_data = some data' }))

  unfoldable pub token_additional_data : Option Pubkey → Mock V (Option AccountAdditionalData)
  unfolding mint_additional_data
  token_additional_data none = pure none
  token_additional_data (some mint_pubkey) = do
    mint_account ← get_account mock_crates vm formats crates now text mint_pubkey
    mint_additional_data mint_account

  unfoldable pub get_parsed_token_account : Pubkey → Account → Mock V UiAccount
  unfolding token_additional_data
  get_parsed_token_account pubkey account = do
    additional_data ← token_additional_data (crates.get_token_account_mint account.contents)
    pure (crates.encode_ui_account pubkey account json_parsed additional_data none)

  unfoldable pub encode_found :
      Pubkey
      → UiAccountEncoding
      → Option UiDataSliceConfig
      → Option Account
      → Mock V (Option UiAccount)
  unfolding get_parsed_token_account
  encode_found pubkey encoding data_slice none = pure none
  encode_found pubkey encoding data_slice (some account) = do
    response ←
        (if crates.is_known_spl_token_id account.owner && is_json_parsed encoding
          then get_parsed_token_account pubkey account
          else lift (encode_account crates account pubkey encoding data_slice))
    pure (some response)

  unfoldable pub get_encoded_account :
      Pubkey → UiAccountEncoding → Option UiDataSliceConfig → Mock V (Option UiAccount)
  unfolding encode_found
  get_encoded_account pubkey encoding data_slice = do
    account ← get_account mock_crates vm formats crates now text pubkey
    encode_found pubkey encoding data_slice account

  unfoldable pub get_accounts_from_overwrites_or_node :
      List Pubkey → Option (HashMap Account) → Mock V (List (Pubkey × Option Account))
  get_accounts_from_overwrites_or_node pubkeys overwrites =
      let (from_overwrite, others) = split_overwrites overwrites pubkeys ([], []) in
      (do
        answered ← get_accounts mock_crates vm formats crates now text others
        pure (join_accounts pubkeys from_overwrite (collect answered)))
