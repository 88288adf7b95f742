-- ===== src/Rpc/Views.antt =====
-- rpc/solana/mod.rs: what the methods that read the chain answer, told of the chain behind the node and
-- without a client.
pub mod Accounts
pub mod Tokens
pub mod Searches
pub mod Listed
pub mod Searched
pub mod Methods
pub mod Served
pub mod Samples
mod Tests
use noir_sidecar.Prelude.{ℕ, String, Bool, ◌&&◌, Option, none, some, unwrap_or, if◌then◌else◌}
use noir_sidecar.Prelude.Result.{Result, ok, err, ◌>>=◌}
use noir_sidecar.Prelude.Words.{as_i64, saturating_add_u32}
use noir_sidecar.Sdk.{Bytes, Pubkey, Account, VersionedMessage}
use noir_sidecar.Client.{Hash}
use noir_sidecar.Client.Codec.{Codec}
use noir_sidecar.Client.Solana.{max_age}
use noir_sidecar.Client.Views.{Chain}
use noir_sidecar.Rpc.{RpcResult}
use noir_sidecar.Rpc.Crates.{
  Crates, UiAccountEncoding, binary, json_parsed, UiDataSliceConfig, UiAccount,
  AccountAdditionalData, CommitmentLevel, processed, confirmed, finalized, RpcContextConfig,
  RpcAccountInfoConfig, wire_base64,
}
use noir_sidecar.Rpc.Verify.{verify_pubkey}
use noir_sidecar.Rpc.Encode.{
  is_json_parsed, encode_account, get_additional_mint_data, decode_and_deserialize,
}
use noir_sidecar.Rpc.Methods.{RpcResponse, RpcBlockhash}

module _ (crates : Crates) (chain : Chain) where
  -- The block of a request: the best one when `processed` is asked for, else the finalized one.
  abbrev pub head : CommitmentLevel → Hash
  head processed = chain.best
  head confirmed = chain.finalized
  head finalized = chain.finalized

  abbrev pub block_of : Option CommitmentLevel → Hash
  block_of commitment = head (unwrap_or crates.default_commitment commitment)

  abbrev pub mint_view : Hash → Option Account → RpcResult (Option AccountAdditionalData)
  mint_view h none = ok none
  mint_view h (some mint_account) =
      get_additional_mint_data crates mint_account.contents (as_i64 (chain.time h)) >>= λ data'.
      ok (some (record { spl_token_additional_data = some data' }))

  abbrev pub token_view : Hash → Option Pubkey → RpcResult (Option AccountAdditionalData)
  token_view h none = ok none
  token_view h (some mint_key) = mint_view h (chain.account h mint_key)

  -- A token account, parsed with the data that the chain has of its mint.
  abbrev pub parsed_view : Hash → Pubkey → Account → RpcResult UiAccount
  parsed_view h key account =
      token_view h (crates.get_token_account_mint account.contents) >>= λ extra.
      ok (crates.encode_ui_account key account json_parsed extra none)

  abbrev pub account_view :
      Hash
      → Pubkey
      → UiAccountEncoding
      → Option UiDataSliceConfig
      → Option Account
      → RpcResult (Option UiAccount)
  account_view h key encoding data_slice none = ok none
  account_view h key encoding data_slice (some account) =
      (if crates.is_known_spl_token_id account.owner && is_json_parsed encoding
        then parsed_view h key account
        else encode_account crates account key encoding data_slice)
      >>= λ response. ok (some response)

  -- The answers.
  abbrev pub account_info_view :
      String → Option RpcAccountInfoConfig → RpcResult (RpcResponse (Option UiAccount))
  account_info_view key_text config =
      let info = unwrap_or crates.default_account_info_config config in
      let h = block_of info.commitment in
      verify_pubkey crates key_text >>= λ key.
      account_view h key (unwrap_or binary info.encoding) info.data_slice (chain.account h key)
      >>= λ response. ok (record { slot = chain.slot h; value = response })

  abbrev pub balance_view : String → Option RpcContextConfig → RpcResult (RpcResponse ℕ)
  balance_view key_text config =
      let h = block_of (unwrap_or crates.default_context_config config).commitment in
      verify_pubkey crates key_text >>= λ key.
      ok (record { slot = chain.slot h; value = chain.balance h key })

  abbrev pub blockhash_view : Codec → Option RpcContextConfig → RpcResult (RpcResponse RpcBlockhash)
  blockhash_view codec config =
      let h = block_of (unwrap_or crates.default_context_config config).commitment in
      ok (record {
        slot = chain.slot h;
        value = record {
          blockhash = codec.bs58_encode_hash h;
          last_valid_block_height = saturating_add_u32 (chain.height h) (max_age codec);
        };
      })

  abbrev pub fee_view :
      (ℕ → Bytes → Result String VersionedMessage)
      → String
      → Option RpcContextConfig
      → RpcResult (RpcResponse (Option ℕ))
  fee_view deserialize encoded config =
      let h = block_of (unwrap_or crates.default_context_config config).commitment in
      decode_and_deserialize crates deserialize "solana_sdk::message::VersionedMessage" encoded
        wire_base64
      >>= λ wire. ok (record { slot = chain.slot h; value = some (chain.fee h wire.1) })
