-- ===== src/Rpc/Accounts.antt =====
-- rpc/solana/mod.rs: the block hash of a request, and the accounts that the methods read and encode.
pub mod Overwrites
pub mod Partition
pub mod Programs
use Prim.Native.String
use noir_sidecar.Prelude.{
  ◌++◌, ℕ, String, Bool, true, false, not, ◌&&◌, Option, none, some, List, [], ◌∷◌, map, filter,
  filter_map, option_map, unwrap_or, is_some, or_else, flatten, ◌==◌, if◌then◌else◌,
}
use noir_sidecar.Prelude.Result.{Result, ok, err, map_err, to_option}
use noir_sidecar.Prelude.HashMap.{HashMap, get, insert, collect, values}
use noir_sidecar.Sdk.{Pubkey, Account}
use noir_sidecar.Client.{Error, Hash}
use noir_sidecar.Client.Node.{Io, pure, fail, lift, ◌>>=◌, map_err_io}
use noir_sidecar.Client.Codec.{Codec}
use noir_sidecar.Client.Solana.{
  get_account, get_accounts, get_timestamp, latest_blockhash, finalized_blockhash,
}
use noir_sidecar.Rpc.{Rpc}
use noir_sidecar.Rpc.Crates.{
  Crates, UiAccountEncoding, json_parsed, UiDataSliceConfig, UiAccountData, json, legacy_binary,
  encoded, UiAccount, SplTokenAdditionalData, AccountAdditionalData, CommitmentLevel, processed,
  confirmed, finalized, RpcContextConfig,
}
use noir_sidecar.Rpc.Verify.{internal_error, invalid_params, TokenAccountsFilter, mint, program}
use noir_sidecar.Rpc.Encode.{
  is_json_parsed, encode_account, get_additional_mint_data, get_multiple_additional_mint_data,
}

pub record RpcKeyedAccount : Type 0 where
  pub pubkey : String
  pub account : UiAccount

-- `get` behind an optional map, as `overwrite_accounts.and_then(..)`.
abbrev pub overwrite_of : Option (HashMap Account) → Pubkey → Option Account
overwrite_of none pubkey = none
overwrite_of (some overwrites) pubkey = get pubkey overwrites

abbrev pub is_json : UiAccountData → Bool
is_json (json value) = true
is_json (legacy_binary value) = false
is_json (encoded value encoding) = false

-- The loop over the keys: the overwritten accounts, and the keys that are left for the node.
keep_or_ask :
    Pubkey → Option Account → HashMap Account × List Pubkey → HashMap Account × List Pubkey
keep_or_ask pubkey (some account) (found, others) = (insert pubkey account found, others)
keep_or_ask pubkey none (found, others) = (found, others ++ (pubkey ∷ []))

unfoldable pub split_overwrites :
    Option (HashMap Account)
    → List Pubkey
    → HashMap Account × List Pubkey
    → HashMap Account × List Pubkey
unfolding keep_or_ask
split_overwrites overwrites [] s = s
split_overwrites overwrites (pubkey ∷ pubkeys) s =
    split_overwrites overwrites pubkeys (keep_or_ask pubkey (overwrite_of overwrites pubkey) s)

-- The accounts of all keys, in the order asked: an overwrite before the node's account.
unfoldable pub join_accounts :
    List Pubkey → HashMap Account → HashMap (Option Account) → List (Pubkey × Option Account)
join_accounts pubkeys from_overwrite from_node =
    map (λ pubkey. (pubkey, or_else (get pubkey from_overwrite) (flatten (get pubkey from_node))))
      pubkeys

module _ (crates : Crates) where
  -- The test of the partition.
  is_token_entry : Pubkey × Option Account → Bool
  is_token_entry p = crates.is_known_spl_token_id p.0 && is_some p.1

  unfoldable pub filter_known_spl_tokens :
      List (Pubkey × Option Account) → List (Pubkey × Account) × List (Pubkey × Option Account)
  unfolding is_token_entry
  filter_known_spl_tokens accounts = (
    filter_map (λ p. option_map (λ account. (p.0, account)) p.1)
        (filter (λ p. is_token_entry p) accounts),
    filter (λ p. not (is_token_entry p)) accounts,
  )

  unfoldable pub get_multiple_token_account_mint : List (Pubkey × Account) → HashMap Pubkey
  get_multiple_token_account_mint accounts = collect (
      filter_map
        (λ p.
          option_map (λ mint_pubkey. (p.0, mint_pubkey))
            (crates.get_token_account_mint p.1.contents))
        accounts)

  -- `.await.map_err(|e| internal_error(..))?` on a call of the client.
  abbrev pub asked : {A : Type 0} → Io Error A → Rpc A
  asked call = map_err_io (λ e. internal_error crates (some (crates.debug_error e))) call

  module _ (codec : Codec) where
    unfoldable pub hash_at : CommitmentLevel → Io Error Hash
    hash_at processed = latest_blockhash codec
    hash_at confirmed = finalized_blockhash codec
    hash_at finalized = finalized_blockhash codec

    unfoldable pub hash : Option CommitmentLevel → Rpc Hash
    unfolding hash_at
    hash commitment = asked (hash_at (unwrap_or crates.default_commitment commitment))

    -- The minimal context slot is not looked at.
    unfoldable pub get_hash_with_config : RpcContextConfig → Rpc Hash
    unfolding hash
    get_hash_with_config config = hash config.commitment

    unfoldable pub mint_account_data : Option Account → Hash → Rpc (Pubkey × SplTokenAdditionalData)
    mint_account_data none at_hash =
        fail (invalid_params crates (some "Invalid param: could not find mint."))
    mint_account_data (some mint_account) at_hash = do
      timestamp ← asked (get_timestamp codec at_hash)
      mint_data ← lift (get_additional_mint_data crates mint_account.contents timestamp)
      pure (mint_account.owner, mint_data)

    unfoldable pub get_mint_owner_and_additional_data :
        Pubkey → Hash → Rpc (Pubkey × SplTokenAdditionalData)
    unfolding mint_account_data
    get_mint_owner_and_additional_data mint_key at_hash =
        if mint_key == crates.native_mint_id
        then pure (crates.spl_token_id, crates.with_decimals crates.native_mint_decimals)
        else (do
          mint_account ← asked (get_account codec mint_key (some at_hash))
          mint_account_data mint_account at_hash)

    unfoldable pub get_token_program_id_and_mint :
        TokenAccountsFilter → Hash → Rpc (Pubkey × Option Pubkey)
    unfolding get_mint_owner_and_additional_data
    get_token_program_id_and_mint (mint key) at_hash =
        get_mint_owner_and_additional_data key at_hash >>= λ found.
        if not (crates.is_known_spl_token_id found.0)
        then fail (invalid_params crates (some "Invalid param: not a Token mint"))
        else pure (found.0, some key)
    get_token_program_id_and_mint (program program_id) at_hash =
        if crates.is_known_spl_token_id program_id
        then pure (program_id, none)
        else fail (invalid_params crates (some "Invalid param: unrecognized Token program id"))

    -- The additional data of one mint, when the node knows the mint.
    unfoldable pub mint_additional_data : Option Account → Hash → Rpc (Option AccountAdditionalData)
    mint_additional_data none at_hash = pure none
    mint_additional_data (some mint_account) at_hash = do
      timestamp ← asked (get_timestamp codec at_hash)
      mint_data ← lift (get_additional_mint_data crates mint_account.contents timestamp)
      pure (some (record { spl_token_additional_data = some mint_data }))

    unfoldable pub token_additional_data : Option Pubkey → Hash → Rpc (Option AccountAdditionalData)
    unfolding mint_additional_data
    token_additional_data none at_hash = pure none
    token_additional_data (some mint_pubkey) at_hash = do
      mint_account ← asked (get_account codec mint_pubkey (some at_hash))
      mint_additional_data mint_account at_hash

    unfoldable pub get_parsed_token_account : Pubkey → Account → Hash → Rpc UiAccount
    unfolding token_additional_data
    get_parsed_token_account pubkey account at_hash = do
      additional_data ←
          token_additional_data (crates.get_token_account_mint account.contents) at_hash
      pure (crates.encode_ui_account pubkey account json_parsed additional_data none)

    unfoldable pub encode_found :
        Pubkey
        → UiAccountEncoding
        → Option UiDataSliceConfig
        → Hash
        → Option Account
        → Rpc (Option UiAccount)
    unfolding get_parsed_token_account
    encode_found pubkey encoding data_slice at_hash none = pure none
    encode_found pubkey encoding data_slice at_hash (some account) = do
      response ←
          (if crates.is_known_spl_token_id account.owner && is_json_parsed encoding
            then get_parsed_token_account pubkey account at_hash
            else lift (encode_account crates account pubkey encoding data_slice))
      pure (some response)

    unfoldable pub get_encoded_account :
        Pubkey → UiAccountEncoding → Option UiDataSliceConfig → Hash → Rpc (Option UiAccount)
    unfolding encode_found
    get_encoded_account pubkey encoding data_slice at_hash = do
      account ← asked (get_account codec pubkey (some at_hash))
      encode_found pubkey encoding data_slice at_hash account

    unfoldable pub get_accounts_from_overwrites_or_node :
        List Pubkey → Option (HashMap Account) → Hash → Rpc (List (Pubkey × Option Account))
    unfolding split_overwrites join_accounts
    get_accounts_from_overwrites_or_node pubkeys overwrites at_hash =
        let (from_overwrite, others) = split_overwrites overwrites pubkeys ([], []) in
        (do
          answered ← asked (get_accounts codec others (some at_hash))
          pure (join_accounts pubkeys from_overwrite (collect answered)))
