-- ===== src/Rpc/Encode.antt =====
-- rpc/solana/mod.rs: the size limits on the data that leaves and enters, and the data of a mint.
pub mod Limits
use Prim.Native.String
use noir_sidecar.Prelude.{
  ℕ, ◌-◌, String, Bool, true, false, ◌&&◌, ◌||◌, Option, none, some, List, [], ◌∷◌, option_map,
  unwrap_or, length, ltb, min, if◌then◌else◌,
}
use noir_sidecar.Prelude.Result.{Result, ok, err, map_err, ◌>>=◌, to_option}
use noir_sidecar.Prelude.HashMap.{HashMap, collect}
use noir_sidecar.Prelude.Words.{ℤ}
use noir_sidecar.Prelude.{filter_map}
use noir_sidecar.Sdk.{Bytes, Pubkey, Account}
use noir_sidecar.Rpc.{RpcResult}
use noir_sidecar.Rpc.Crates.{
  Crates, UiAccountEncoding, binary, base58, base64, json_parsed, base64_zstd, UiDataSliceConfig,
  UiAccount, MintState, SplTokenAdditionalData, AccountAdditionalData, TransactionBinaryEncoding,
  wire_base58, wire_base64,
}
use noir_sidecar.Rpc.Verify.{invalid_params, invalid_request}

-- `==` on encodings, at the values that the source compares with.
abbrev pub is_binary : UiAccountEncoding → Bool
is_binary binary = true
is_binary _ = false

abbrev pub is_base58 : UiAccountEncoding → Bool
is_base58 base58 = true
is_base58 _ = false

abbrev pub is_json_parsed : UiAccountEncoding → Bool
is_json_parsed json_parsed = true
is_json_parsed _ = false

-- `data_slice.map(|s| min(s.length, len.saturating_sub(s.offset))).unwrap_or(len)`.
abbrev pub sliced_length : Option UiDataSliceConfig → ℕ → ℕ
sliced_length data_slice len =
    unwrap_or len (option_map (λ s. min s.length (len - s.offset)) data_slice)

abbrev pub max_base58_size : ℕ
max_base58_size = 1683

abbrev pub max_base64_size : ℕ
max_base64_size = 1644

infixr 65 ◌+++◌
abbrev pub ◌+++◌ : String → String → String
s +++ t = String.◌++◌ s t

module _ (crates : Crates) where
  abbrev too_large_to_encode : String
  too_large_to_encode =
      "Encoded binary (base 58) data should be less than "
      +++ crates.show_number crates.max_base58_bytes
      +++ " bytes, please use Base64 encoding."

  unfoldable pub encode_account :
      Account → Pubkey → UiAccountEncoding → Option UiDataSliceConfig → RpcResult UiAccount
  encode_account account pubkey encoding data_slice =
      if (is_binary encoding || is_base58 encoding)
        && ltb crates.max_base58_bytes (sliced_length data_slice (length account.contents))
      then err (invalid_request crates (some too_large_to_encode))
      else ok (crates.encode_ui_account pubkey account encoding none data_slice)

  mint_data : ℤ → MintState → SplTokenAdditionalData
  mint_data timestamp state = record {
    decimals = state.decimals;
    interest_bearing_config = option_map (λ x. (x, timestamp)) state.interest_bearing_config;
  }

  unfoldable pub get_additional_mint_data : Bytes → ℤ → RpcResult SplTokenAdditionalData
  unfolding mint_data
  get_additional_mint_data bytes timestamp =
      map_err (λ e. invalid_params crates (some e)) (crates.unpack_mint bytes) >>= λ state.
      ok (mint_data timestamp state)

  additional : SplTokenAdditionalData → AccountAdditionalData
  additional data' = record { spl_token_additional_data = some data' }

  unfoldable pub get_multiple_additional_mint_data :
      HashMap Account → ℤ → HashMap AccountAdditionalData
  unfolding additional
  get_multiple_additional_mint_data accounts timestamp = collect (
      filter_map
        (λ p.
          option_map (λ data'. (p.0, additional data'))
            (to_option (get_additional_mint_data p.1.contents timestamp)))
        accounts)

  -- The texts of the errors, at the name of the type that is decoded.
  abbrev too_large : String → String → ℕ → ℕ → String
  too_large kind type_name len limit =
      kind
      +++ " encoded "
      +++ type_name
      +++ " too large: "
      +++ crates.show_number len
      +++ " bytes (max: encoded/raw "
      +++ crates.show_number limit
      +++ "/"
      +++ crates.show_number crates.packet_data_size
      +++ ")"

  -- One of the two arms: the limit on the text, and the decoder.
  decode_text : String → ℕ → (String → Result String Bytes) → String → String → RpcResult Bytes
  decode_text kind limit decoder type_name encoded =
      if ltb limit (crates.text_length encoded)
      then err (
          invalid_params crates
            (some (too_large kind type_name (crates.text_length encoded) limit)))
      else map_err (λ e. invalid_params crates (some ("invalid " +++ kind +++ " encoding: " +++ e)))
          (decoder encoded)

  decode_wire : TransactionBinaryEncoding → String → String → RpcResult Bytes
  unfolding decode_text
  decode_wire wire_base58 type_name encoded =
      decode_text "base58" max_base58_size crates.bs58_decode type_name encoded
  decode_wire wire_base64 type_name encoded =
      decode_text "base64" max_base64_size crates.base64_decode type_name encoded

  module _ {T : Type 0} (deserialize : ℕ → Bytes → Result String T) (type_name : String) where
    deserialize_wire : Bytes → RpcResult (Bytes × T)
    deserialize_wire wire_output =
        if ltb crates.packet_data_size (length wire_output)
        then err (
            invalid_params crates (
              some (
                "decoded "
                +++ type_name
                +++ " too large: "
                +++ crates.show_number (length wire_output)
                +++ " bytes (max: "
                +++ crates.show_number crates.packet_data_size
                +++ " bytes)")))
        else (map_err
              (λ e.
                invalid_params crates
                  (some ("failed to deserialize " +++ type_name +++ ": " +++ e)))
              (deserialize crates.packet_data_size wire_output)
            >>= λ output. ok (wire_output, output))

    -- `deserialize` is bincode's, with the limit that it is given.
    unfoldable pub decode_and_deserialize :
        String → TransactionBinaryEncoding → RpcResult (Bytes × T)
    unfolding decode_wire deserialize_wire
    decode_and_deserialize encoded encoding =
        decode_wire encoding type_name encoded >>= deserialize_wire
