-- ===== src/Rpc/Crates.antt =====
-- The functions and constants of the Solana crates that the JSON-RPC methods use, and the data that
-- the methods pass to them unread. An error is its debug text.
use noir_sidecar.Prelude.{ℕ, String, Bool, Option, List}
use noir_sidecar.Prelude.Result.{Result}
use noir_sidecar.Prelude.Words.{ℤ}
use noir_sidecar.Prelude.HashMap.{HashMap}
use noir_sidecar.Sdk.{Bytes, Pubkey, Signature, Account, Memcmp, RpcFilterType, SimulatedKeys}
use noir_sidecar.Client.{Error, Hash}
use noir_sidecar.Index.{AccountIndex}
use noir_sidecar.Rpc.{ErrorCode, ErrorObject}

pub data UiAccountEncoding : Type 0 where
  binary base58 base64 json_parsed base64_zstd : UiAccountEncoding

pub record UiDataSliceConfig : Type 0 where
  pub offset : ℕ
  pub length : ℕ

-- The encoded data of an account: parsed JSON, or a text.
pub data UiAccountData : Type 0 where
  json : String → UiAccountData
  legacy_binary : String → UiAccountData
  encoded : String → UiAccountEncoding → UiAccountData

-- The other fields of an encoded account are carried unread.
pub record UiAccount : Type 0 where
  pub content : UiAccountData
  pub others : String

-- `SplTokenAdditionalData`; the interest-bearing configuration is carried unread, with the time.
pub record SplTokenAdditionalData : Type 0 where
  pub decimals : ℕ
  pub interest_bearing_config : Option (Bytes × ℤ)

-- `AccountAdditionalDataV2`.
pub record AccountAdditionalData : Type 0 where
  pub spl_token_additional_data : Option SplTokenAdditionalData

-- What `StateWithExtensions::<Mint>::unpack` finds.
pub record MintState : Type 0 where
  pub decimals : ℕ
  pub interest_bearing_config : Option Bytes

pub data CommitmentLevel : Type 0 where
  processed confirmed finalized : CommitmentLevel

pub record RpcContextConfig : Type 0 where
  pub commitment : Option CommitmentLevel
  pub min_context_slot : Option ℕ

pub record RpcAccountInfoConfig : Type 0 where
  pub encoding : Option UiAccountEncoding
  pub data_slice : Option UiDataSliceConfig
  pub commitment : Option CommitmentLevel
  pub min_context_slot : Option ℕ

pub data UiTransactionEncoding : Type 0 where
  tx_binary tx_base64 tx_base58 tx_json tx_json_parsed : UiTransactionEncoding

pub data TransactionBinaryEncoding : Type 0 where
  wire_base58 wire_base64 : TransactionBinaryEncoding

pub record RpcProgramAccountsConfig : Type 0 where
  pub filters : Option (List RpcFilterType)
  pub account_config : RpcAccountInfoConfig
  pub with_context : Option Bool
  pub sort_results : Option Bool

-- The fields that the method does not look at are left out.
pub record RpcSendTransactionConfig : Type 0 where
  pub encoding : Option UiTransactionEncoding

pub record RpcSimulateTransactionAccountsConfig : Type 0 where
  pub encoding : Option UiAccountEncoding
  pub addresses : List String

pub record RpcSimulateTransactionConfig : Type 0 where
  pub sig_verify : Bool
  pub replace_recent_blockhash : Bool
  pub commitment : Option CommitmentLevel
  pub encoding : Option UiTransactionEncoding
  pub accounts : Option RpcSimulateTransactionAccountsConfig
  pub min_context_slot : Option ℕ
  pub inner_instructions : Bool

pub record Crates : Type 0 where
  -- Texts.
  pub standard_message : ErrorCode → String
  pub debug_error : Error → String
  pub debug_error_object : ErrorObject → String
  pub show_number : ℕ → String
  pub debug_account_index : AccountIndex → String
  pub show_tx_encoding : UiTransactionEncoding → String
  pub pubkey_from_str : String → Result String Pubkey
  pub pubkey_to_string : Pubkey → String
  pub signature_from_str : String → Result String Signature
  pub signature_to_string : Signature → String
  -- Keys and token programs.
  pub pubkey_try_from : Bytes → Result String Pubkey
  pub pubkey_to_bytes : Pubkey → Bytes
  pub is_known_spl_token_id : Pubkey → Bool
  pub token_2022_id : Pubkey
  pub spl_token_id : Pubkey
  pub native_mint_id : Pubkey
  pub native_mint_decimals : ℕ
  pub with_decimals : ℕ → SplTokenAdditionalData
  pub get_token_account_mint : Bytes → Option Pubkey
  pub unpack_mint : Bytes → Result String MintState
  -- Filters.
  pub memcmp_offset : Memcmp → ℕ
  pub raw_bytes_as_ref : Memcmp → Option Bytes
  pub convert_to_raw_bytes : Memcmp → Result String Memcmp
  pub new_raw_bytes : ℕ → Bytes → Memcmp
  pub verify : RpcFilterType → Result String (Unit {0})
  -- Encodings.
  pub encode_ui_account :
      Pubkey
      → Account
      → UiAccountEncoding
      → Option AccountAdditionalData
      → Option UiDataSliceConfig
      → UiAccount
  pub into_binary_encoding : UiTransactionEncoding → Option TransactionBinaryEncoding
  pub bs58_decode : String → Result String Bytes
  pub base64_decode : String → Result String Bytes
  -- The length of a text in bytes.
  pub text_length : String → ℕ
  -- Defaults.
  pub default_commitment : CommitmentLevel
  pub default_context_config : RpcContextConfig
  pub default_account_info_config : RpcAccountInfoConfig
  pub default_send_config : RpcSendTransactionConfig
  pub default_simulate_config : RpcSimulateTransactionConfig
  -- Transactions: the text of a hash, the number of keys of a simulated message, and the parsed inner
  -- instructions.
  pub hash_to_string : Hash → String
  pub account_keys_len : SimulatedKeys → ℕ
  pub ui_inner_instructions : SimulatedKeys → List Bytes → List String
  -- The order in which `std` hands out the entries of a `HashMap`, which it leaves unspecified.
  pub iterate_mints : HashMap Pubkey → HashMap Pubkey
  pub iterate_parsed : HashMap UiAccount → HashMap UiAccount
  -- Constants.
  pub account_packed_len : ℕ
  pub account_type_account : ℕ
  pub spl_token_account_mint_offset : ℕ
  pub spl_token_account_owner_offset : ℕ
  pub pubkey_bytes : ℕ
  pub max_base58_bytes : ℕ
  pub packet_data_size : ℕ
  pub max_multiple_accounts : ℕ
  pub max_get_program_account_filters : ℕ
  pub max_get_signature_statuses_query_items : ℕ
