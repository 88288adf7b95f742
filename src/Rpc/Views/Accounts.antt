-- ===== src/Rpc/Views/Accounts.antt =====
-- rpc/solana/mod.rs: the block of a request and the encoded account, over a node of the chain.
use noir_sidecar.Prelude.{◌&&◌, Option, none, some, unwrap_or}
use noir_sidecar.Prelude.Result.{ok}
use noir_sidecar.Prelude.Result.{◌>>=◌ as ◌>>=?◌}
use noir_sidecar.Prelude.Words.{as_i64}
use noir_sidecar.Sdk.{Pubkey, Account}
use noir_sidecar.Client.{Error, Hash}
use noir_sidecar.Client.Node.{Node, Io}
use noir_sidecar.Client.Codec.{Codec}
use noir_sidecar.Client.Calls.Replies.{HexLaws}
use noir_sidecar.Client.Served.Reached.{Server}
use noir_sidecar.Client.Views.{
  Chain, TellsOf, Backs, Gives, lift-Gives, pure-Gives, >>=-Gives, if-Gives, map_err_io-Gives,
}
use noir_sidecar.Client.Views.Reads.{
  latest_blockhash-Gives, finalized_blockhash-Gives, get_slot-Gives, get_timestamp-Gives,
  get_account-Gives,
}
use noir_sidecar.Rpc.{ErrorObject}
use noir_sidecar.Rpc.Crates.{
  Crates, UiAccountEncoding, json_parsed, UiDataSliceConfig, CommitmentLevel, processed, confirmed,
  finalized, RpcContextConfig,
}
use noir_sidecar.Rpc.Encode.{is_json_parsed, encode_account, get_additional_mint_data}
use noir_sidecar.Rpc.Accounts.{
  asked, hash_at, hash, get_hash_with_config, mint_additional_data, token_additional_data,
  get_parsed_token_account, encode_found, get_encoded_account,
}
use noir_sidecar.Rpc.Methods.{get_hash_and_slot}
use noir_sidecar.Rpc.Views.{head, block_of, mint_view, token_view, parsed_view, account_view}

module _ (crates : Crates) (codec : Codec) (laws : HexLaws codec) (server : Server)
    (Good : Node → Type 0) (backs : Backs server Good) (chain : Chain)
    (tells : TellsOf codec server chain) where
  pub asked-Gives :
      {A : Type 0} (call : Io Error A) (a : A)
      → Gives Good call (ok a)
      → Gives Good (asked crates call) (ok a)
  asked-Gives call a gives = map_err_io-Gives Good _ call (ok a) gives

  hash_at-Gives :
      (level : CommitmentLevel)
      → Gives Good (hash_at crates codec level) (ok (head crates chain level))
  unfolding hash_at
  hash_at-Gives processed = latest_blockhash-Gives codec laws server Good backs chain tells
  hash_at-Gives confirmed = finalized_blockhash-Gives codec laws server Good backs chain tells
  hash_at-Gives finalized = finalized_blockhash-Gives codec laws server Good backs chain tells

  pub get_hash_and_slot-Gives :
      (config : RpcContextConfig)
      → Gives Good (get_hash_and_slot crates codec config) (
          ok (
            block_of crates chain config.commitment,
            chain.slot (block_of crates chain config.commitment),
          ))
  unfolding get_hash_and_slot get_hash_with_config hash
  get_hash_and_slot-Gives config =
      >>=-Gives Good _ _ (ok (block_of crates chain config.commitment)) (λ h. ok (h, chain.slot h))
        (asked-Gives _ _ (hash_at-Gives (unwrap_or crates.default_commitment config.commitment)))
        (λ h.
          >>=-Gives Good _ _ (ok (chain.slot h)) (λ slot. ok (h, slot))
            (asked-Gives _ _ (get_slot-Gives codec laws server Good backs chain tells h))
            (λ slot. pure-Gives Good ErrorObject (h, slot)))

  mint_additional_data-Gives :
      (h : Hash) (found : Option Account)
      → Gives Good (mint_additional_data crates codec found h) (mint_view crates chain h found)
  unfolding mint_additional_data
  mint_additional_data-Gives h none = pure-Gives Good ErrorObject none
  mint_additional_data-Gives h (some account) =
      >>=-Gives Good _ _ (ok (as_i64 (chain.time h)))
        (λ timestamp. get_additional_mint_data crates account.contents timestamp >>=? λ data'.
          ok (some (record { spl_token_additional_data = some data' })))
        (asked-Gives _ _ (get_timestamp-Gives codec laws server Good backs chain tells h))
        (λ timestamp.
          >>=-Gives Good _ _ (get_additional_mint_data crates account.contents timestamp) _
            (lift-Gives Good (get_additional_mint_data crates account.contents timestamp))
            (λ data'. pure-Gives Good ErrorObject _))

  token_additional_data-Gives :
      (h : Hash) (mint_key : Option Pubkey)
      → Gives Good
          (token_additional_data crates codec mint_key h)
          (token_view crates chain h mint_key)
  unfolding token_additional_data
  token_additional_data-Gives h none = pure-Gives Good ErrorObject none
  token_additional_data-Gives h (some key) =
      >>=-Gives Good _ _ (ok (chain.account h key)) (λ found. mint_view crates chain h found)
        (asked-Gives _ _ (get_account-Gives codec laws server Good backs chain tells h key))
        (λ found. mint_additional_data-Gives h found)

  get_parsed_token_account-Gives :
      (h : Hash) (key : Pubkey) (account : Account)
      → Gives Good
          (get_parsed_token_account crates codec key account h)
          (parsed_view crates chain h key account)
  unfolding get_parsed_token_account
  get_parsed_token_account-Gives h key account =
      >>=-Gives Good _ _
        (token_view crates chain h (crates.get_token_account_mint account.contents))
        (λ extra. ok (crates.encode_ui_account key account json_parsed extra none))
        (token_additional_data-Gives h (crates.get_token_account_mint account.contents))
        (λ extra. pure-Gives Good ErrorObject _)

  encode_found-Gives :
      (h : Hash) (key : Pubkey) (encoding : UiAccountEncoding)
      (data_slice : Option UiDataSliceConfig) (found : Option Account)
      → Gives Good
          (encode_found crates codec key encoding data_slice h found)
          (account_view crates chain h key encoding data_slice found)
  unfolding encode_found
  encode_found-Gives h key encoding data_slice none = pure-Gives Good ErrorObject none
  encode_found-Gives h key encoding data_slice (some account) =
      >>=-Gives Good _ _ _ (λ response. ok (some response))
        (if-Gives Good (crates.is_known_spl_token_id account.owner && is_json_parsed encoding) _ _
          (parsed_view crates chain h key account)
          (encode_account crates account key encoding data_slice)
          (get_parsed_token_account-Gives h key account)
          (lift-Gives Good (encode_account crates account key encoding data_slice)))
        (λ response. pure-Gives Good ErrorObject (some response))

  pub get_encoded_account-Gives :
      (h : Hash) (key : Pubkey) (encoding : UiAccountEncoding)
      (data_slice : Option UiDataSliceConfig)
      → Gives Good
          (get_encoded_account crates codec key encoding data_slice h)
          (account_view crates chain h key encoding data_slice (chain.account h key))
  unfolding get_encoded_account
  get_encoded_account-Gives h key encoding data_slice =
      >>=-Gives Good _ _ (ok (chain.account h key))
        (λ found. account_view crates chain h key encoding data_slice found)
        (asked-Gives _ _ (get_account-Gives codec laws server Good backs chain tells h key))
        (λ found. encode_found-Gives h key encoding data_slice found)
