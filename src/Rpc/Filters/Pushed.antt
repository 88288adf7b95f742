-- ===== src/Rpc/Filters/Pushed.antt =====
-- rpc/solana/mod.rs, `get_spl_token_owner_filter`, `get_spl_token_mint_filter`: filters that are
-- recognised.
use noir_sidecar.Prelude.{
  ℕ, ◌≡◌, ◌≢◌, refl, Bool, true, false, ◌||◌, some, List, [], ◌∷◌, ◌++◌, length, ◌==◌, arith,
}
use noir_sidecar.Prelude.Result.{ok}
use noir_sidecar.Sdk.{Bytes, Pubkey, Memcmp, RpcFilterType, memcmp, token_account_state}
use noir_sidecar.Rpc.Crates.{Crates}
use noir_sidecar.Rpc.Filters.{
  FilterScan, no_filters, scan_key, scan_bytes, scan_filter, scan, selects_token_accounts,
  token_filter,
}

or_true : (a b : Bool) → (a || b || true) ≡ true
or_true true true = refl
or_true true false = refl
or_true false true = refl
or_true false false = refl

module _ (crates : Crates) (key_offset : ℕ) (program_id : Pubkey) where
  scan-append :
      (xs ys : List RpcFilterType) (s : FilterScan)
      → scan crates key_offset program_id (xs ++ ys) s
        ≡ scan crates key_offset program_id ys (scan crates key_offset program_id xs s)
  unfolding scan
  scan-append [] ys s = refl
  scan-append (x ∷ xs) ys s = scan-append xs ys (scan_filter crates key_offset program_id x s)

  pub token_filter-pushed :
      (filters : List RpcFilterType) (m : Memcmp) (bytes : Bytes) (k : Pubkey)
      → crates.is_known_spl_token_id program_id ≡ true
      → key_offset ≢ crates.account_packed_len
      → crates.memcmp_offset m ≡ key_offset
      → crates.raw_bytes_as_ref m ≡ some bytes
      → length bytes ≡ crates.pubkey_bytes
      → crates.pubkey_try_from bytes ≡ ok k
      → token_filter crates key_offset program_id (filters ++ token_account_state ∷ memcmp m ∷ [])
        ≡ some k
  unfolding token_filter scan scan_filter scan_bytes scan_key selects_token_accounts
  token_filter-pushed filters m bytes k known apart o r n t =
      rw
        (
          known,
          scan-append filters (token_account_state ∷ memcmp m ∷ []) no_filters,
          o,
          r,
          offset,
          here,
          whole,
          t,
        )
        (rw or_true)
    where
      offset : (key_offset == crates.account_packed_len) ≡ false
      offset = ground arith

      here : (key_offset == key_offset) ≡ true
      here = ground arith

      whole : (length bytes == crates.pubkey_bytes) ≡ true
      whole = ground arith
