-- ===== src/Rpc/Filters/Sound.antt =====
-- rpc/solana/mod.rs, `get_spl_token_owner_filter`, `get_spl_token_mint_filter`: what a recognised key
-- says of the filters.
use noir_sidecar.Prelude.{
  Occurs, ℕ, ◌≡◌, ◌⊎◌, refl, ap, Bool, true, false, ◌&&◌, Option, none, some, List, [], ◌∷◌, length,
  ◌==◌, ==_iff, arith, inl, inr, Bool-cases,
}
use noir_sidecar.Prelude.Result.{Result, ok, err, to_option}
use noir_sidecar.Sdk.{Bytes, Pubkey, Memcmp, RpcFilterType, data_size, memcmp, token_account_state}
use noir_sidecar.Rpc.Crates.{Crates}
use noir_sidecar.Rpc.Filters.{
  FilterScan, no_filters, is_one_byte, scan_key, scan_bytes, scan_filter, scan,
  selects_token_accounts, token_filter, get_spl_token_owner_filter, get_spl_token_mint_filter,
}

module _ (crates : Crates) (key_offset : ℕ) (program_id : Pubkey) where
  -- A comparison of all the bytes of the key `k`, at the offset of the key.
  abbrev pub PinsKey : Pubkey → RpcFilterType → Type 0
  PinsKey k f =
      (m : Memcmp) × (bytes : Bytes) × (f ≡ memcmp m)
      × (crates.memcmp_offset m ≡ key_offset)
      × (crates.raw_bytes_as_ref m ≡ some bytes)
      × (length bytes ≡ crates.pubkey_bytes)
      × (crates.pubkey_try_from bytes ≡ ok k)

  -- The size of a token account, the state of one, or the type byte of a Token-2022 account.
  abbrev pub PinsTokenAccount : RpcFilterType → Type 0
  PinsTokenAccount f =
      (f ≡ data_size crates.account_packed_len)
      ⊎ (f ≡ token_account_state)
      ⊎ ((m : Memcmp) × (f ≡ memcmp m)
          × (crates.memcmp_offset m ≡ crates.account_packed_len)
          × (program_id ≡ crates.token_2022_id)
          × (crates.raw_bytes_as_ref m ≡ some (crates.account_type_account ∷ [])))

  to_option-eq-some :
      {k : Pubkey} {E : Type 0} (r : Result E Pubkey) → to_option r ≡ some k → r ≡ ok k
  to_option-eq-some (ok a) h = ground arith
  to_option-eq-some (err e) h = cc

  scan_bytes-key :
      (offset : ℕ) (o : Option Bytes) (s : FilterScan) (k : Pubkey)
      → (scan_bytes crates key_offset program_id offset o s).key ≡ some k
      → (s.key ≡ some k)
        ⊎ ((bytes : Bytes) × (offset ≡ key_offset)
            × (o ≡ some bytes)
            × (length bytes ≡ crates.pubkey_bytes)
            × (crates.pubkey_try_from bytes ≡ ok k))
  unfolding scan_bytes scan_key
  scan_bytes-key offset none s k h = inl h
  scan_bytes-key offset (some bytes) s k h =
      elim (Bool-cases
        (offset == crates.account_packed_len && program_id == crates.token_2022_id)) [
          | inl typed ↦ inl (ground (arith, typed))
          | inr plain ↦ elim (Bool-cases (offset == key_offset)) [
            | inr other ↦ inl (ground (arith, plain, other))
            | inl here ↦ elim (Bool-cases (length bytes == crates.pubkey_bytes)) [
              | inr part ↦ inl (ground (arith, plain, here, part))
              | inl whole ↦ inr (
                bytes,
                (==_iff _ _).0 here,
                refl,
                (==_iff _ _).0 whole,
                to_option-eq-some (crates.pubkey_try_from bytes)
                    (ground (arith, plain, here, whole)),
              )
            ]
          ]
        ]

  scan_filter-key :
      (f : RpcFilterType) (s : FilterScan) (k : Pubkey)
      → (scan_filter crates key_offset program_id f s).key ≡ some k
      → (s.key ≡ some k) ⊎ PinsKey k f
  unfolding scan_filter
  scan_filter-key (data_size size) s k h = inl h
  scan_filter-key (memcmp m) s k h =
      elim (scan_bytes-key (crates.memcmp_offset m) (crates.raw_bytes_as_ref m) s k h) [
        | inl old ↦ inl old
        | inr (bytes, o, r, n, t) ↦ inr (m, bytes, refl, o, r, n, t)
      ]
  scan_filter-key token_account_state s k h = inl h

  scan-key :
      (fs : List RpcFilterType) (s : FilterScan) (k : Pubkey)
      → (scan crates key_offset program_id fs s).key ≡ some k
      → (s.key ≡ some k) ⊎ Occurs (PinsKey k) fs
  unfolding scan
  scan-key [] s k h = inl h
  scan-key (f ∷ fs) s k h = elim (scan-key fs (scan_filter crates key_offset program_id f s) k h) [
    | inr later ↦ inr (inr later)
    | inl here ↦ elim (scan_filter-key f s k here) [ inl old ↦ inl old | inr pins ↦ inr (inl pins) ]
  ]

  abbrev selects : FilterScan → Bool
  selects = selects_token_accounts crates key_offset program_id

  is_one_byte_sound : (b : ℕ) (bytes : Bytes) → is_one_byte b (some bytes) ≡ true → bytes ≡ b ∷ []
  is_one_byte_sound b [] h = cc
  is_one_byte_sound b (x ∷ []) h = ap (λ y. y ∷ []) ((==_iff x b).0 h)
  is_one_byte_sound b (x ∷ y ∷ bytes) h = cc

  scan_bytes-selects :
      (offset : ℕ) (o : Option Bytes) (s : FilterScan)
      → selects (scan_bytes crates key_offset program_id offset o s) ≡ true
      → (selects s ≡ true)
        ⊎ ((offset ≡ crates.account_packed_len)
            × (program_id ≡ crates.token_2022_id)
            × (o ≡ some (crates.account_type_account ∷ [])))
  unfolding scan_bytes scan_key selects_token_accounts
  scan_bytes-selects offset none s h = inl h
  scan_bytes-selects offset (some bytes) s h =
      elim (Bool-cases
        (offset == crates.account_packed_len && program_id == crates.token_2022_id)) [
          | inr plain ↦ inl (ground (arith, plain))
          | inl typed ↦ elim (Bool-cases (is_one_byte crates.account_type_account (some bytes))) [
            | inr other ↦ inl (ground (arith, typed, other))
            | inl byte ↦ inr (
              ground arith,
              ground arith,
              ap some (is_one_byte_sound crates.account_type_account bytes byte),
            )
          ]
        ]

  scan_filter-selects :
      (f : RpcFilterType) (s : FilterScan)
      → selects (scan_filter crates key_offset program_id f s) ≡ true
      → (selects s ≡ true) ⊎ PinsTokenAccount f
  unfolding scan_filter selects_token_accounts
  scan_filter-selects (data_size size) s h = elim (Bool-cases (size == crates.account_packed_len)) [
    | inl sized ↦ inr (inl (ap data_size ((==_iff _ _).0 sized)))
    | inr other ↦ inl (ground (arith, other))
  ]
  scan_filter-selects (memcmp m) s h =
      elim (scan_bytes-selects (crates.memcmp_offset m) (crates.raw_bytes_as_ref m) s h) [
        | inl old ↦ inl old
        | inr (o, p, r) ↦ inr (inr (inr (m, refl, o, p, r)))
      ]
  scan_filter-selects token_account_state s h = inr (inr (inl refl))

  scan-selects :
      (fs : List RpcFilterType) (s : FilterScan)
      → selects (scan crates key_offset program_id fs s) ≡ true
      → (selects s ≡ true) ⊎ Occurs PinsTokenAccount fs
  unfolding scan
  scan-selects [] s h = inl h
  scan-selects (f ∷ fs) s h =
      elim (scan-selects fs (scan_filter crates key_offset program_id f s) h) [
        | inr later ↦ inr (inr later)
        | inl here ↦ elim (scan_filter-selects f s here) [
          | inl old ↦ inl old
          | inr pins ↦ inr (inl pins)
        ]
      ]

  -- What a recognised key says of the program and of the filters.
  abbrev pub Recognises : List RpcFilterType → Pubkey → Type 0
  Recognises filters k =
      (crates.is_known_spl_token_id program_id ≡ true)
      × Occurs (PinsKey k) filters
      × Occurs PinsTokenAccount filters

  found :
      (k : Pubkey) (fs : List RpcFilterType)
      → (none ≡ some k) ⊎ Occurs (PinsKey k) fs
      → Occurs (PinsKey k) fs
  found k fs (inl h) = cc
  found k fs (inr o) = o

  selected :
      (fs : List RpcFilterType)
      → (false ≡ true) ⊎ Occurs PinsTokenAccount fs
      → Occurs PinsTokenAccount fs
  selected fs (inl h) = cc
  selected fs (inr o) = o

  token_filter-Recognises :
      (filters : List RpcFilterType) (k : Pubkey)
      → token_filter crates key_offset program_id filters ≡ some k
      → Recognises filters k
  unfolding token_filter
  token_filter-Recognises filters k h =
      elim (Bool-cases (crates.is_known_spl_token_id program_id)) [
        | inr unknown ↦ absurd (ground (arith, unknown))
        | inl known ↦
            elim (Bool-cases (selects (scan crates key_offset program_id filters no_filters))) [
              | inr other ↦ absurd (ground (arith, known, other))
              | inl chosen ↦ (
                known,
                found k filters (scan-key filters no_filters k (ground (arith, known, chosen))),
                selected filters (scan-selects filters no_filters chosen),
              )
            ]
      ]

module _ (crates : Crates) where
  -- When the owner analysis finds a key, the program is a token program, some filter compares all the
  -- bytes of that key at the owner's offset, and some filter singles out token accounts.
  pub get_spl_token_owner_filter-Recognises :
      (program_id : Pubkey) (filters : List RpcFilterType) (owner : Pubkey)
      → get_spl_token_owner_filter crates program_id filters ≡ some owner
      → Recognises crates crates.spl_token_account_owner_offset program_id filters owner
  unfolding get_spl_token_owner_filter
  get_spl_token_owner_filter-Recognises program_id filters owner h =
      token_filter-Recognises crates crates.spl_token_account_owner_offset program_id filters owner
        h

  -- When the mint analysis finds a key, the program is a token program, some filter compares all the
  -- bytes of that key at the mint's offset, and some filter singles out token accounts.
  pub get_spl_token_mint_filter-Recognises :
      (program_id : Pubkey) (filters : List RpcFilterType) (mint_key : Pubkey)
      → get_spl_token_mint_filter crates program_id filters ≡ some mint_key
      → Recognises crates crates.spl_token_account_mint_offset program_id filters mint_key
  unfolding get_spl_token_mint_filter
  get_spl_token_mint_filter-Recognises program_id filters mint_key h =
      token_filter-Recognises crates crates.spl_token_account_mint_offset program_id filters
        mint_key h
