-- ===== src/Rpc/Tokens/Pushed.antt =====
-- rpc/solana/mod.rs, `get_filtered_spl_token_accounts_by_owner`, `get_filtered_spl_token_accounts_by_mint`:
-- the filters that the searches send.
use noir_sidecar.Prelude.{ℕ, ◌≡◌, ◌≢◌, true, some, List, length}
use noir_sidecar.Prelude.Result.{ok}
use noir_sidecar.Sdk.{Bytes, Pubkey, RpcFilterType}
use noir_sidecar.Rpc.Crates.{Crates}
use noir_sidecar.Rpc.Filters.{get_spl_token_owner_filter, get_spl_token_mint_filter}
use noir_sidecar.Rpc.Filters.Pushed.{token_filter-pushed}
use noir_sidecar.Rpc.Tokens.{redundant_filters}

-- The documented round trips of a raw comparison and of a key.
pub record RawBytesLaws (crates : Crates) : Type 0 where
  pub offset : (o : ℕ) (bytes : Bytes) → crates.memcmp_offset (crates.new_raw_bytes o bytes) ≡ o
  pub raw :
      (o : ℕ) (bytes : Bytes) → crates.raw_bytes_as_ref (crates.new_raw_bytes o bytes) ≡ some bytes
  pub length : (k : Pubkey) → length (crates.pubkey_to_bytes k) ≡ crates.pubkey_bytes
  pub read : (k : Pubkey) → crates.pubkey_try_from (crates.pubkey_to_bytes k) ≡ ok k

-- Whatever filters the caller gave, those that a search by owner or by mint of a token program sends
-- are ones that the analysis recognises, and it reads back just the key that was searched for.
pub redundant_filters-recognised :
    (crates : Crates) (program_id key : Pubkey) (filters : List RpcFilterType)
    → RawBytesLaws crates
    → crates.is_known_spl_token_id program_id ≡ true
    → crates.spl_token_account_owner_offset ≢ crates.account_packed_len
    → crates.spl_token_account_mint_offset ≢ crates.account_packed_len
    → (get_spl_token_owner_filter crates program_id
          (redundant_filters crates crates.spl_token_account_owner_offset key filters)
        ≡ some key)
      × (get_spl_token_mint_filter crates program_id
            (redundant_filters crates crates.spl_token_account_mint_offset key filters)
          ≡ some key)
unfolding get_spl_token_owner_filter get_spl_token_mint_filter redundant_filters
redundant_filters-recognised crates program_id key filters laws known owner mint = (
  token_filter-pushed crates crates.spl_token_account_owner_offset program_id filters _ _ key known
      owner (laws.offset _ _) (laws.raw _ _) (laws.length key) (laws.read key),
  token_filter-pushed crates crates.spl_token_account_mint_offset program_id filters _ _ key known
      mint (laws.offset _ _) (laws.raw _ _) (laws.length key) (laws.read key),
)
