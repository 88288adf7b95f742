-- ===== src/Rpc/Samples.antt =====
-- Concrete crates for the tests of the methods: a key is spelled by one byte.
use Prim.Native.String
use noir_sidecar.Prelude.Words.{to_le_bytes}
use noir_sidecar.Prelude.{List}
use noir_sidecar.Prelude.{ℕ, String, false, Option, none, some, [], ◌∷◌, ◌++◌, ◌==◌}
use noir_sidecar.Prelude.Result.{Result, ok, err}
use noir_sidecar.Sdk.{
  Bytes, Pubkey, MemcmpBytes, raw, base58, base64, VersionedTransaction, RpcFilterType, memcmp,
  token_account_state,
}
use noir_sidecar.Client.Codec.{Codec}
use noir_sidecar.Client.Samples.{plain, constant_node}
use noir_sidecar.Client.Node.{Node}
use noir_sidecar.Rpc.Crates.{Crates, processed, json, wire_base64}

abbrev backwards : {A : Type 0} → List A → List A
backwards [] = []
backwards (x ∷ xs) = backwards xs ++ x ∷ []

abbrev read_key : Bytes → Result String Pubkey
read_key [] = err "no bytes"
read_key (k ∷ ks) = ok k

abbrev raw_bytes : MemcmpBytes → Option Bytes
raw_bytes (raw bytes) = some bytes
raw_bytes (base58 text) = none
raw_bytes (base64 text) = none

abbrev pub sample : Crates
sample = record {
  standard_message = λ code. "error";
  debug_error = λ e. "error";
  debug_error_object = λ e. e.message;
  show_number = λ n. "n";
  debug_account_index = λ i. "index";
  show_tx_encoding = λ e. "encoding";
  pubkey_from_str = λ s. ok 7;
  pubkey_to_string = λ k. "key";
  signature_from_str = λ s. ok 8;
  signature_to_string = λ k. "signature";
  pubkey_try_from = read_key;
  pubkey_to_bytes = λ k. k ∷ [];
  is_known_spl_token_id = λ k. k == 1;
  token_2022_id = 2;
  spl_token_id = 1;
  native_mint_id = 3;
  native_mint_decimals = 9;
  with_decimals = λ n. record { decimals = n; interest_bearing_config = none };
  get_token_account_mint = λ bytes. none;
  unpack_mint = λ bytes. err "no mint";
  memcmp_offset = λ m. m.position;
  raw_bytes_as_ref = λ m. raw_bytes m.pattern_bytes;
  convert_to_raw_bytes = λ m. ok m;
  new_raw_bytes = λ o bytes. record { position = o; pattern_bytes = raw bytes };
  verify = λ f. ok tt;
  encode_ui_account =
      λ k account encoding extra data_slice. record { content = json "account"; others = "" };
  into_binary_encoding = λ e. some wire_base64;
  bs58_decode = λ s. ok [];
  base64_decode = λ s. ok (4 ∷ 5 ∷ []);
  text_length = λ s. 10;
  default_commitment = processed;
  default_context_config = record { commitment = none; min_context_slot = none };
  default_account_info_config = record {
    encoding = none;
    data_slice = none;
    commitment = none;
    min_context_slot = none;
  };
  default_send_config = record { encoding = none };
  default_simulate_config = record {
    sig_verify = false;
    replace_recent_blockhash = false;
    commitment = none;
    encoding = none;
    accounts = none;
    min_context_slot = none;
    inner_instructions = false;
  };
  hash_to_string = λ h. "hash";
  account_keys_len = λ keys. 3;
  ui_inner_instructions = λ keys info. [];
  iterate_mints = λ m. backwards m;
  iterate_parsed = λ m. backwards m;
  account_packed_len = 165;
  account_type_account = 2;
  spl_token_account_mint_offset = 0;
  spl_token_account_owner_offset = 32;
  pubkey_bytes = 1;
  max_base58_bytes = 128;
  packet_data_size = 1232;
  max_multiple_accounts = 100;
  max_get_program_account_filters = 4;
  max_get_signature_statuses_query_items = 256;
}

-- A node's replies that tell of one account, which does not exist.
abbrev pub one_missing : Codec
one_missing = record plain { deserialize_accounts = λ bytes. ok (none ∷ []) }

-- A wire format of one message, without signatures.
abbrev pub unsigned : ℕ → Bytes → Result String VersionedTransaction
unsigned limit wire =
    ok (record { signatures = []; message = record { recent_blockhash = 1; body = wire } })

abbrev pub mint_filters : List RpcFilterType
mint_filters = memcmp (sample.new_raw_bytes 0 (6 ∷ [])) ∷ token_account_state ∷ []

abbrev pub wire : Bytes
wire = 4 ∷ 5 ∷ []

-- A node that answers 258 as eight bytes.
abbrev pub node : Node
node = constant_node (String.◌++◌ "0x" (plain.hex_encode (to_le_bytes 8 258)))
