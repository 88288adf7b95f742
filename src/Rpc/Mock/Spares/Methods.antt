-- ===== src/Rpc/Mock/Spares/Methods.antt =====
-- rpc/solana/mock/mod.rs: the methods of the mock node that read its machine or its index.
use noir_sidecar.Prelude.{ℕ, String, Option, none, some, List, length, ltb, unwrap_or}
use noir_sidecar.Prelude.Result.{Result}
use noir_sidecar.Sdk.{Bytes, VersionedMessage}
use noir_sidecar.Rpc.Crates.{
  Crates, binary, wire_base64, RpcAccountInfoConfig, RpcProgramAccountsConfig,
}
use noir_sidecar.Rpc.Encode.{is_json_parsed, decode_and_deserialize}
use noir_sidecar.Rpc.Verify.{verify_pubkey, RpcTokenAccountsFilter, verify_token_account_filter}
use noir_sidecar.Rpc.Methods.Search.{filters_of, mint_filters}
use noir_sidecar.Rpc.Mock.{MockCrates, MockIndex}
use noir_sidecar.Rpc.Mock.Methods.{get_latest_blockhash, get_balance, get_signature_statuses}
use noir_sidecar.Rpc.Mock.Encoded.{
  Fees, get_account_info, get_multiple_accounts, get_fee_for_message, fee_of,
}
use noir_sidecar.Rpc.Mock.Search.{get_program_accounts, get_token_accounts_by_owner}
use noir_sidecar.Rpc.Mock.Spares.{
  Spares, pure-Spares, lift-Spares, >>=-Spares, if-Spares, execute-Spares, get_balance-Reading,
  get_transactions-Reading,
}
use noir_sidecar.Rpc.Mock.Spares.Helpers.{
  search-Spares, by_owner-Spares, get_mock_hash_and_slot-Spares,
  get_token_program_id_and_mint-Spares, get_encoded_account-Spares, encode_keyed_accounts-Spares,
  get_encoded_accounts-Spares,
}
use noir_sidecar.Rpc.Mock.Svm.{Vm, Bincode, Formats}

module _ (mock_crates : MockCrates) {V : Type 0} (vm : Vm V) (formats : Formats) (crates : Crates)
    (accounts_index : MockIndex) (now : ℕ) (text : Bincode String) where
  pub account_info-Spares :
      (key : String) (config : Option RpcAccountInfoConfig)
      → Spares (get_account_info mock_crates vm formats crates now text key config)
  unfolding get_account_info
  account_info-Spares key config = >>=-Spares _ _ (lift-Spares V _) (λ pubkey.
      >>=-Spares _ _ (get_encoded_account-Spares mock_crates vm formats crates now text pubkey _ _)
        (λ response. pure-Spares V _))

  pub multiple_accounts-Spares :
      (keys : List String) (config : Option RpcAccountInfoConfig)
      → Spares (get_multiple_accounts mock_crates vm formats crates now text keys config)
  unfolding get_multiple_accounts
  multiple_accounts-Spares keys config =
      if-Spares (ltb crates.max_multiple_accounts (length keys)) _ _ (lift-Spares V _) (
        >>=-Spares _ _ (lift-Spares V _) (λ pubkeys.
          >>=-Spares _ _
            (get_encoded_accounts-Spares mock_crates vm formats crates now text pubkeys _ _ none)
            (λ response.
              >>=-Spares _ _ (get_mock_hash_and_slot-Spares mock_crates vm formats crates now text)
                (λ block. pure-Spares V _))))

  pub program_accounts-Spares :
      (key : String) (config : Option RpcProgramAccountsConfig)
      → Spares
          (get_program_accounts mock_crates vm formats crates accounts_index now text key config)
  unfolding get_program_accounts
  program_accounts-Spares key config = >>=-Spares _ _ (lift-Spares V _) (λ program_id.
      if-Spares (ltb crates.max_get_program_account_filters (length (filters_of config))) _ _
        (lift-Spares V _)
        (>>=-Spares _ _ (lift-Spares V _) (λ checked.
          >>=-Spares _ _ (search-Spares mock_crates vm formats crates accounts_index program_id _)
            (λ found.
              >>=-Spares _ _
                (encode_keyed_accounts-Spares mock_crates vm formats crates now text accounts_index
                  _ _ _ found)
                (λ accounts. pure-Spares V _)))))

  pub token_accounts-Spares :
      (key : String) (token_filter : RpcTokenAccountsFilter) (config : Option RpcAccountInfoConfig)
      → Spares (
          get_token_accounts_by_owner mock_crates vm formats crates accounts_index now text key
            token_filter config)
  unfolding get_token_accounts_by_owner
  token_accounts-Spares key token_filter config =
      let info = unwrap_or crates.default_account_info_config config in
      let encoding = unwrap_or binary info.encoding in
      >>=-Spares _ _ (lift-Spares V (verify_pubkey crates key)) (λ owner.
        >>=-Spares _ _ (lift-Spares V (verify_token_account_filter crates token_filter))
          (λ verified.
            >>=-Spares _ _
              (get_token_program_id_and_mint-Spares mock_crates vm formats crates now text verified)
              (λ found.
                >>=-Spares _ _
                  (by_owner-Spares mock_crates vm formats crates accounts_index found.0 owner
                    (mint_filters crates found.1))
                  (λ keyed.
                    >>=-Spares _ _
                      (encode_keyed_accounts-Spares mock_crates vm formats crates now text
                        accounts_index encoding info.data_slice (is_json_parsed encoding) keyed)
                      (λ accounts. pure-Spares V (record { slot = 0; value = accounts }))))))

  pub latest_blockhash-Spares : Spares (get_latest_blockhash mock_crates vm formats crates now text)
  unfolding get_latest_blockhash
  latest_blockhash-Spares =
      >>=-Spares _ _ (get_mock_hash_and_slot-Spares mock_crates vm formats crates now text)
        (λ block. pure-Spares V _)

  pub fee_for_message-Spares :
      {S M : Type 0} (fees : Fees S M) (deserialize : ℕ → Bytes → Result String VersionedMessage)
      (encoded : String)
      → Spares (get_fee_for_message mock_crates vm formats crates now text fees deserialize encoded)
  unfolding get_fee_for_message
  fee_for_message-Spares fees deserialize encoded =
      >>=-Spares _ _
        (lift-Spares V (
          decode_and_deserialize crates deserialize "solana_sdk::message::VersionedMessage" encoded
            wire_base64))
        (λ wire. >>=-Spares _ _ (lift-Spares V (fee_of crates fees wire.1)) (λ fee.
          >>=-Spares _ _ (get_mock_hash_and_slot-Spares mock_crates vm formats crates now text)
            (λ block. pure-Spares V (record { slot = block.1; value = some fee }))))

  pub balance-Spares :
      (key : String) → Spares (get_balance mock_crates vm formats crates now text key)
  unfolding get_balance
  balance-Spares key = >>=-Spares _ _ (lift-Spares V _) (λ pubkey.
      >>=-Spares _ _
        (execute-Spares mock_crates vm formats crates formats.pubkey formats.balance "getBalance"
          pubkey (get_balance-Reading mock_crates vm formats crates))
        (λ balance.
          >>=-Spares _ _ (get_mock_hash_and_slot-Spares mock_crates vm formats crates now text)
            (λ block. pure-Spares V _)))

  pub signature_statuses-Spares :
      (signatures : List String)
      → Spares (get_signature_statuses mock_crates vm formats crates now text signatures)
  unfolding get_signature_statuses
  signature_statuses-Spares signatures =
      if-Spares (ltb crates.max_get_signature_statuses_query_items (length signatures)) _ _
        (lift-Spares V _)
        (>>=-Spares _ _ (lift-Spares V _) (λ verified.
          >>=-Spares _ _
            (execute-Spares mock_crates vm formats crates formats.signatures formats.results
              "getTransactions" verified (get_transactions-Reading mock_crates vm formats crates))
            (λ transactions.
              >>=-Spares _ _ (get_mock_hash_and_slot-Spares mock_crates vm formats crates now text)
                (λ block. pure-Spares V _))))
