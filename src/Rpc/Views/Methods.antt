-- ===== src/Rpc/Views/Methods.antt =====
-- rpc/solana/mod.rs: the methods that read the chain, over a node of the chain.
use noir_sidecar.Prelude.{ℕ, String, List, Option, some, unwrap_or}
use noir_sidecar.Prelude.Result.{Result, ok}
use noir_sidecar.Prelude.Result.{◌>>=◌ as ◌>>=?◌}
use noir_sidecar.Prelude.Words.{saturating_add_u32}
use noir_sidecar.Sdk.{Bytes, VersionedMessage}
use noir_sidecar.Client.Node.{Node}
use noir_sidecar.Client.Codec.{Codec}
use noir_sidecar.Client.Calls.Replies.{HexLaws}
use noir_sidecar.Client.Served.Reached.{Server}
use noir_sidecar.Client.Solana.{max_age}
use noir_sidecar.Client.Views.{Chain, TellsOf, Backs, Gives, lift-Gives, pure-Gives, >>=-Gives}
use noir_sidecar.Client.Views.Reads.{
  get_genesis_hash-Gives, get_last_valid_block_height-Gives, get_balance-Gives,
  get_fee_for_message-Gives,
}
use noir_sidecar.Rpc.{ErrorObject}
use noir_sidecar.Rpc.Crates.{
  Crates, binary, RpcContextConfig, RpcAccountInfoConfig, RpcProgramAccountsConfig, wire_base64,
}
use noir_sidecar.Rpc.Verify.{verify_pubkey, RpcTokenAccountsFilter}
use noir_sidecar.Rpc.Encode.{decode_and_deserialize}
use noir_sidecar.Rpc.Methods.{
  context_of, get_account_info, get_balance, get_latest_blockhash, get_fee_for_message,
  get_genesis_hash, get_multiple_accounts,
}
use noir_sidecar.Rpc.Methods.Search.{get_program_accounts, get_token_accounts_by_owner}
use noir_sidecar.Rpc.Tokens.{IndexLookup}
use noir_sidecar.Rpc.Views.Tokens.{multiple_accounts_view, multiple_accounts-Gives}
use noir_sidecar.Rpc.Views.Searches.{program_accounts_view, token_accounts_view}
use noir_sidecar.Rpc.Views.Searched.{program_accounts-Gives, token_accounts-Gives}
use noir_sidecar.Rpc.Views.{
  block_of, account_view, account_info_view, balance_view, blockhash_view, fee_view,
}
use noir_sidecar.Rpc.Views.Accounts.{
  asked-Gives, get_hash_and_slot-Gives, get_encoded_account-Gives,
}

module _ (crates : Crates) (lookup : IndexLookup) (codec : Codec) (chain : Chain)
    (Good : Node → Type 0) where
  -- The methods answer what the chain tells, from every good node.
  pub record Views : Type 0 where
    pub account_info :
        (key : String) (config : Option RpcAccountInfoConfig)
        → Gives Good
            (get_account_info crates codec key config)
            (account_info_view crates chain key config)
    pub multiple_accounts :
        (keys : List String) (config : Option RpcAccountInfoConfig)
        → Gives Good
            (get_multiple_accounts crates codec keys config)
            (multiple_accounts_view crates chain keys config)
    pub program_accounts :
        (key : String) (config : Option RpcProgramAccountsConfig)
        → Gives Good
            (get_program_accounts crates lookup codec key config)
            (program_accounts_view crates chain lookup key config)
    pub token_accounts :
        (owner : String) (token_filter : RpcTokenAccountsFilter)
        (config : Option RpcAccountInfoConfig)
        → Gives Good
            (get_token_accounts_by_owner crates lookup codec owner token_filter config)
            (token_accounts_view crates chain lookup owner token_filter config)
    pub balance :
        (key : String) (config : Option RpcContextConfig)
        → Gives Good (get_balance crates codec key config) (balance_view crates chain key config)
    pub blockhash :
        (config : Option RpcContextConfig)
        → Gives Good
            (get_latest_blockhash crates codec config)
            (blockhash_view crates chain codec config)
    pub fee :
        (deserialize : ℕ → Bytes → Result String VersionedMessage) (encoded : String)
        (config : Option RpcContextConfig)
        → Gives Good
            (get_fee_for_message crates codec deserialize encoded config)
            (fee_view crates chain deserialize encoded config)
    pub genesis :
        Gives Good (get_genesis_hash crates codec) (ok (codec.bs58_encode_hash chain.genesis))

module _ (crates : Crates) (lookup : IndexLookup) (codec : Codec) (laws : HexLaws codec)
    (server : Server) (Good : Node → Type 0) (backs : Backs server Good) (chain : Chain)
    (tells : TellsOf codec server chain) where
  account_info-Gives :
      (key_text : String) (config : Option RpcAccountInfoConfig)
      → Gives Good
          (get_account_info crates codec key_text config)
          (account_info_view crates chain key_text config)
  unfolding get_account_info
  account_info-Gives key_text config =
      let info = unwrap_or crates.default_account_info_config config in
      let h = block_of crates chain info.commitment in
      let encoding = unwrap_or binary info.encoding in
      >>=-Gives Good _ _ (verify_pubkey crates key_text) _
        (lift-Gives Good (verify_pubkey crates key_text))
        (λ key.
          >>=-Gives Good _ _ (ok (h, chain.slot h))
            (λ block.
              account_view crates chain block.0 key encoding info.data_slice
                (chain.account block.0 key)
              >>=? λ response. ok (record { slot = block.1; value = response }))
            (get_hash_and_slot-Gives crates codec laws server Good backs chain tells
              (context_of info))
            (λ block.
              >>=-Gives Good _ _
                (account_view crates chain block.0 key encoding info.data_slice
                  (chain.account block.0 key))
                _
                (get_encoded_account-Gives crates codec laws server Good backs chain tells block.0
                  key encoding info.data_slice)
                (λ response. pure-Gives Good ErrorObject _)))

  balance-Gives :
      (key_text : String) (config : Option RpcContextConfig)
      → Gives Good
          (get_balance crates codec key_text config)
          (balance_view crates chain key_text config)
  unfolding get_balance
  balance-Gives key_text config =
      let context = unwrap_or crates.default_context_config config in
      let h = block_of crates chain context.commitment in
      >>=-Gives Good _ _ (verify_pubkey crates key_text) _
        (lift-Gives Good (verify_pubkey crates key_text))
        (λ key.
          >>=-Gives Good _ _ (ok (h, chain.slot h))
            (λ block. ok (record { slot = block.1; value = chain.balance block.0 key }))
            (get_hash_and_slot-Gives crates codec laws server Good backs chain tells context)
            (λ block.
              >>=-Gives Good _ _ (ok (chain.balance block.0 key))
                (λ balance. ok (record { slot = block.1; value = balance }))
                (asked-Gives crates codec laws server Good backs chain tells _ _
                  (get_balance-Gives codec laws server Good backs chain tells block.0 key))
                (λ balance. pure-Gives Good ErrorObject _)))

  blockhash-Gives :
      (config : Option RpcContextConfig)
      → Gives Good
          (get_latest_blockhash crates codec config)
          (blockhash_view crates chain codec config)
  unfolding get_latest_blockhash
  blockhash-Gives config =
      let context = unwrap_or crates.default_context_config config in
      let h = block_of crates chain context.commitment in
      >>=-Gives Good _ _ (ok (h, chain.slot h))
        (λ block. ok (record {
          slot = block.1;
          value = record {
            blockhash = codec.bs58_encode_hash block.0;
            last_valid_block_height = saturating_add_u32 (chain.height block.0) (max_age codec);
          };
        }))
        (get_hash_and_slot-Gives crates codec laws server Good backs chain tells context)
        (λ block.
          >>=-Gives Good _ _ (ok (saturating_add_u32 (chain.height block.0) (max_age codec)))
            (λ height. ok (record {
              slot = block.1;
              value = record {
                blockhash = codec.bs58_encode_hash block.0;
                last_valid_block_height = height;
              };
            }))
            (asked-Gives crates codec laws server Good backs chain tells _ _
              (get_last_valid_block_height-Gives codec laws server Good backs chain tells block.0))
            (λ height. pure-Gives Good ErrorObject _))

  fee-Gives :
      (deserialize : ℕ → Bytes → Result String VersionedMessage) (encoded : String)
      (config : Option RpcContextConfig)
      → Gives Good
          (get_fee_for_message crates codec deserialize encoded config)
          (fee_view crates chain deserialize encoded config)
  unfolding get_fee_for_message
  fee-Gives deserialize encoded config =
      let context = unwrap_or crates.default_context_config config in
      let h = block_of crates chain context.commitment in
      let decoded =
        decode_and_deserialize crates deserialize "solana_sdk::message::VersionedMessage" encoded
          wire_base64 in
      >>=-Gives Good _ _ decoded _ (lift-Gives Good decoded) (λ wire.
        >>=-Gives Good _ _ (ok (h, chain.slot h))
          (λ block. ok (record { slot = block.1; value = some (chain.fee block.0 wire.1) }))
          (get_hash_and_slot-Gives crates codec laws server Good backs chain tells context)
          (λ block.
            >>=-Gives Good _ _ (ok (chain.fee block.0 wire.1))
              (λ fee. ok (record { slot = block.1; value = some fee }))
              (asked-Gives crates codec laws server Good backs chain tells _ _
                (get_fee_for_message-Gives codec laws server Good backs chain tells block.0 wire.1))
              (λ fee. pure-Gives Good ErrorObject _)))

  genesis-Gives :
      Gives Good (get_genesis_hash crates codec) (ok (codec.bs58_encode_hash chain.genesis))
  unfolding get_genesis_hash
  genesis-Gives =
      asked-Gives crates codec laws server Good backs chain tells _ _
        (get_genesis_hash-Gives codec laws server Good backs chain tells)

  pub methods-Views : Views crates lookup codec chain Good
  methods-Views = record {
    account_info = account_info-Gives;
    multiple_accounts = multiple_accounts-Gives crates codec laws server Good backs chain tells;
    program_accounts =
        program_accounts-Gives crates lookup codec laws server Good backs chain tells;
    token_accounts = token_accounts-Gives crates lookup codec laws server Good backs chain tells;
    balance = balance-Gives;
    blockhash = blockhash-Gives;
    fee = fee-Gives;
    genesis = genesis-Gives;
  }
