-- ===== src/Rpc/Filters.antt =====
-- rpc/solana/mod.rs: the program-account filters, and the token filters that they amount to.
pub mod Sound
pub mod Pushed
use noir_sidecar.Prelude.{
  ℕ, String, Bool, true, false, not, ◌&&◌, ◌||◌, Option, none, some, List, [], ◌∷◌, map, length,
  ◌==◌, if◌then◌else◌,
}
use noir_sidecar.Prelude.Result.{ok, err, to_option, Result}
use noir_sidecar.Sdk.{Bytes, Pubkey, Memcmp, RpcFilterType, data_size, memcmp, token_account_state}
use noir_sidecar.Rpc.Crates.{Crates}

-- The variables of the two analyses; `key` and `incorrect_len` are those of the owner or of the mint.
pub record FilterScan : Type 0 where
  pub data_size_filter : Option ℕ
  pub memcmp_filter : Option Bytes
  pub key : Option Pubkey
  pub incorrect_len : Option ℕ
  pub token_account_state_filter : Bool

abbrev pub no_filters : FilterScan
no_filters = record {
  data_size_filter = none;
  memcmp_filter = none;
  key = none;
  incorrect_len = none;
  token_account_state_filter = false;
}

abbrev pub is_number : ℕ → Option ℕ → Bool
is_number n none = false
is_number n (some m) = m == n

-- `o == Some(&[b])`.
abbrev pub is_one_byte : ℕ → Option Bytes → Bool
is_one_byte b none = false
is_one_byte b (some []) = false
is_one_byte b (some (x ∷ [])) = x == b
is_one_byte b (some (x ∷ y ∷ xs)) = false

module _ (crates : Crates) where
  converted : Memcmp → Result String Memcmp → RpcFilterType
  converted m (ok raw) = memcmp raw
  converted m (err e) = memcmp m

  optimize_filter : RpcFilterType → RpcFilterType
  unfolding converted
  optimize_filter (data_size size) = data_size size
  optimize_filter (memcmp m) = converted m (crates.convert_to_raw_bytes m)
  optimize_filter token_account_state = token_account_state

  -- A pattern that cannot be decoded is left as it is.
  unfoldable pub optimize_filters : List RpcFilterType → List RpcFilterType
  unfolding optimize_filter
  optimize_filters filters = map optimize_filter filters

  module _ (key_offset : ℕ) (program_id : Pubkey) where
    scan_key : Bytes → FilterScan → FilterScan
    scan_key bytes s =
        if length bytes == crates.pubkey_bytes
        then record s { key = to_option (crates.pubkey_try_from bytes) }
        else record s { incorrect_len = some (length bytes) }

    scan_bytes : ℕ → Option Bytes → FilterScan → FilterScan
    scan_bytes offset none s = s
    scan_bytes offset (some bytes) s =
        if offset == crates.account_packed_len && program_id == crates.token_2022_id
        then record s { memcmp_filter = some bytes }
        else if offset == key_offset
        then scan_key bytes s
        else s

    scan_filter : RpcFilterType → FilterScan → FilterScan
    unfolding scan_bytes scan_key
    scan_filter (data_size size) s = record s { data_size_filter = some size }
    scan_filter (memcmp m) s = scan_bytes (crates.memcmp_offset m) (crates.raw_bytes_as_ref m) s
    scan_filter token_account_state s = record s { token_account_state_filter = true }

    scan : List RpcFilterType → FilterScan → FilterScan
    scan [] s = s
    scan (f ∷ fs) s = scan fs (scan_filter f s)

    -- The condition behind the loop.
    selects_token_accounts : FilterScan → Bool
    selects_token_accounts s =
        is_number crates.account_packed_len s.data_size_filter
        || is_one_byte crates.account_type_account s.memcmp_filter
        || s.token_account_state_filter

    -- The text that the two analyses share.
    pub token_filter : List RpcFilterType → Option Pubkey
    unfolding scan scan_filter selects_token_accounts
    token_filter filters =
        if not (crates.is_known_spl_token_id program_id)
        then none
        else (let s = scan filters no_filters in if selects_token_accounts s then s.key else none)

  unfoldable pub get_spl_token_owner_filter : Pubkey → List RpcFilterType → Option Pubkey
  unfolding token_filter
  get_spl_token_owner_filter program_id filters =
      token_filter crates.spl_token_account_owner_offset program_id filters

  unfoldable pub get_spl_token_mint_filter : Pubkey → List RpcFilterType → Option Pubkey
  unfolding token_filter
  get_spl_token_mint_filter program_id filters =
      token_filter crates.spl_token_account_mint_offset program_id filters
