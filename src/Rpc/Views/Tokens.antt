-- ===== src/Rpc/Views/Tokens.antt =====
-- rpc/solana/mod.rs: several accounts at once, encoded or parsed, over a node of the chain.
use noir_sidecar.Prelude.{
  ◌≡◌, refl, ap, ◌∙◌, subst, String, true, false, Bool-cases, inl, inr, Option, none, some, List,
  [], ◌∷◌, map, filter_map, flatten, length, ltb, unwrap_or, if◌then◌else◌, arith,
}
use noir_sidecar.Prelude.Result.{ok, err, ◌>>=◌ as ◌>>=?◌}
use noir_sidecar.Prelude.HashMap.{HashMap, collect, values, last_entry}
use noir_sidecar.Prelude.Words.{as_i64}
use noir_sidecar.Sdk.{Pubkey, Account}
use noir_sidecar.Index.Contract.{contains_key}
use noir_sidecar.Client.{Hash}
use noir_sidecar.Client.Node.{Node}
use noir_sidecar.Client.Codec.{Codec}
use noir_sidecar.Client.Calls.Replies.{HexLaws}
use noir_sidecar.Client.Served.Reached.{Server}
use noir_sidecar.Client.Views.{
  Chain, TellsOf, Backs, Gives, lift-Gives, pure-Gives, >>=-Gives, if-Gives, if_ok-Gives,
}
use noir_sidecar.Client.Views.Reads.{get_accounts-Gives, get_timestamp-Gives}
use noir_sidecar.Rpc.{RpcResult, ErrorObject}
use noir_sidecar.Rpc.Crates.{
  Crates, UiAccountEncoding, binary, UiDataSliceConfig, UiAccount, RpcAccountInfoConfig,
}
use noir_sidecar.Rpc.Verify.{invalid_params, verify_pubkeys}
use noir_sidecar.Rpc.Encode.{is_json_parsed, get_multiple_additional_mint_data}
use noir_sidecar.Rpc.Accounts.{
  RpcKeyedAccount, split_overwrites, join_accounts, filter_known_spl_tokens,
  get_multiple_token_account_mint, get_accounts_from_overwrites_or_node,
}
use noir_sidecar.Rpc.Accounts.Overwrites.{not_overwritten, others-split, split-resolved, map_listed}
use noir_sidecar.Rpc.Tokens.{
  found_mints, parse_accounts, keep_parsed, encode_plain, merge_parsed, get_parsed_token_accounts,
  get_parsed_token_keyed_accounts, encode_resolved, get_encoded_accounts,
}
use noir_sidecar.Rpc.Methods.{RpcResponse, context_of, too_many, get_multiple_accounts}
use noir_sidecar.Rpc.Views.{block_of}
use noir_sidecar.Rpc.Views.Accounts.{asked-Gives, get_hash_and_slot-Gives}

module _ (crates : Crates) (chain : Chain) where
  abbrev pub accounts_view : Hash → List Pubkey → List (Pubkey × Option Account)
  accounts_view h keys = map (λ k. (k, chain.account h k)) keys

  -- Token accounts, parsed with the data that the chain has of their mints.
  abbrev pub parsed_accounts_view : Hash → List (Pubkey × Account) → HashMap UiAccount
  parsed_accounts_view h keyed =
      let mints = get_multiple_token_account_mint crates keyed in
      parse_accounts crates keyed mints (
        get_multiple_additional_mint_data crates
          (found_mints (accounts_view h (values (crates.iterate_mints mints))))
          (as_i64 (chain.time h)))

  abbrev pub parsed_keyed_view : Hash → List (Pubkey × Account) → List RpcKeyedAccount
  parsed_keyed_view h keyed =
      filter_map (λ p. keep_parsed crates p) (crates.iterate_parsed (parsed_accounts_view h keyed))

  abbrev pub encoded_view :
      Hash
      → List Pubkey
      → UiAccountEncoding
      → Option UiDataSliceConfig
      → List (Pubkey × Option Account)
      → List (Option UiAccount)
  encoded_view h keys encoding data_slice accounts =
      if is_json_parsed encoding
      then (let (tokens, others) = filter_known_spl_tokens crates accounts in
          merge_parsed keys (parsed_accounts_view h tokens)
            (collect (map (λ p. (p.0, encode_plain crates encoding data_slice p)) others)))
      else map (λ p. encode_plain crates encoding data_slice p) accounts

  abbrev pub multiple_accounts_view :
      List String → Option RpcAccountInfoConfig → RpcResult (RpcResponse (List (Option UiAccount)))
  multiple_accounts_view key_texts config =
      let info = unwrap_or crates.default_account_info_config config in
      let h = block_of crates chain info.commitment in
      if ltb crates.max_multiple_accounts (length key_texts)
      then err
          (invalid_params crates (some (too_many crates "inputs" crates.max_multiple_accounts)))
      else (verify_pubkeys crates key_texts >>=? λ keys. ok (record {
        slot = chain.slot h;
        value =
            encoded_view h keys (unwrap_or binary info.encoding) info.data_slice
              (accounts_view h keys);
      }))

last_entry-absent :
    {A : Type 0} (f : Pubkey → A) (keys : List Pubkey) (k : Pubkey)
    → contains_key k keys ≡ false
    → last_entry k (map (λ j. (j, f j)) keys) ≡ none
last_entry-absent f [] k absent = refl
last_entry-absent f (j ∷ keys) k absent =
    ground (arith, last_entry-absent f keys k (ground (arith, absent)), absent)

last_entry-map :
    {A : Type 0} (f : Pubkey → A) (keys : List Pubkey) (k : Pubkey)
    → contains_key k keys ≡ true
    → last_entry k (map (λ j. (j, f j)) keys) ≡ some (f k)
last_entry-map f [] k listed = cc
last_entry-map f (j ∷ keys) k listed = elim (Bool-cases (contains_key k keys)) [
  | inl later ↦ ground (arith, last_entry-map f keys k later)
  | inr last ↦
      let same : j ≡ k = ground (arith, listed, last) in
      ground (arith, last_entry-absent f keys k last, same)
]

not_overwritten-none : (keys : List Pubkey) → not_overwritten none keys ≡ keys
not_overwritten-none [] = refl
not_overwritten-none (k ∷ keys) = ap (λ rest. k ∷ rest) (not_overwritten-none keys)

module _ (crates : Crates) (codec : Codec) (laws : HexLaws codec) (server : Server)
    (Good : Node → Type 0) (backs : Backs server Good) (chain : Chain)
    (tells : TellsOf codec server chain) where
  joined-accounts :
      (h : Hash) (keys : List Pubkey)
      → join_accounts keys
          (split_overwrites none keys ([], [])).0
          (collect (accounts_view crates chain h (split_overwrites none keys ([], [])).1))
        ≡ accounts_view crates chain h keys
  unfolding join_accounts
  joined-accounts h keys = map_listed _ _ keys (λ k listed.
      ap (λ o. (k, o))
        (split-resolved crates codec none keys _ k listed
          ∙ ap flatten (
              ap (λ js. last_entry k (map (λ j. (j, chain.account h j)) js))
                (others-split crates codec none keys ([], []) ∙ not_overwritten-none keys)
              ∙ last_entry-map (chain.account h) keys k listed)))

  pub resolved-Gives :
      (h : Hash) (keys : List Pubkey)
      → Gives Good
          (get_accounts_from_overwrites_or_node crates codec keys none h)
          (ok (accounts_view crates chain h keys))
  unfolding get_accounts_from_overwrites_or_node
  resolved-Gives h keys =
      subst (λ r. Gives Good (get_accounts_from_overwrites_or_node crates codec keys none h) (ok r))
        (joined-accounts h keys)
        (>>=-Gives Good _ _
          (ok (accounts_view crates chain h (split_overwrites none keys ([], [])).1))
          (λ answered.
            ok (join_accounts keys (split_overwrites none keys ([], [])).0 (collect answered)))
          (asked-Gives crates codec laws server Good backs chain tells _ _
            (get_accounts-Gives codec laws server Good backs chain tells h _))
          (λ answered. pure-Gives Good ErrorObject _))

  pub get_parsed_token_accounts-Gives :
      (h : Hash) (keyed : List (Pubkey × Account))
      → Gives Good
          (get_parsed_token_accounts crates codec keyed h none)
          (ok (parsed_accounts_view crates chain h keyed))
  unfolding get_parsed_token_accounts
  get_parsed_token_accounts-Gives h keyed =
      let mints = get_multiple_token_account_mint crates keyed in
      >>=-Gives Good _ _ (ok (accounts_view crates chain h (values (crates.iterate_mints mints))))
        (λ answered. ok (
          parse_accounts crates keyed mints (
            get_multiple_additional_mint_data crates (found_mints answered)
              (as_i64 (chain.time h)))))
        (resolved-Gives h (values (crates.iterate_mints mints)))
        (λ answered.
          >>=-Gives Good _ _ (ok (as_i64 (chain.time h)))
            (λ timestamp. ok (
              parse_accounts crates keyed mints
                (get_multiple_additional_mint_data crates (found_mints answered) timestamp)))
            (asked-Gives crates codec laws server Good backs chain tells _ _
              (get_timestamp-Gives codec laws server Good backs chain tells h))
            (λ timestamp. pure-Gives Good ErrorObject _))

  pub get_parsed_token_keyed_accounts-Gives :
      (h : Hash) (keyed : List (Pubkey × Account))
      → Gives Good
          (get_parsed_token_keyed_accounts crates codec keyed h)
          (ok (parsed_keyed_view crates chain h keyed))
  unfolding get_parsed_token_keyed_accounts
  get_parsed_token_keyed_accounts-Gives h keyed =
      >>=-Gives Good _ _ (ok (parsed_accounts_view crates chain h keyed))
        (λ parsed. ok (filter_map (λ p. keep_parsed crates p) (crates.iterate_parsed parsed)))
        (get_parsed_token_accounts-Gives h keyed) (λ parsed. pure-Gives Good ErrorObject _)

  encode_resolved-Gives :
      (h : Hash) (keys : List Pubkey) (encoding : UiAccountEncoding)
      (data_slice : Option UiDataSliceConfig) (accounts : List (Pubkey × Option Account))
      → Gives Good
          (encode_resolved crates codec keys encoding data_slice h none accounts)
          (ok (encoded_view crates chain h keys encoding data_slice accounts))
  unfolding encode_resolved
  encode_resolved-Gives h keys encoding data_slice accounts =
      let (tokens, others) = filter_known_spl_tokens crates accounts in
      if_ok-Gives Good (is_json_parsed encoding) _ _ _ _
        (>>=-Gives Good _ _ (ok (parsed_accounts_view crates chain h tokens))
          (λ parsed. ok (
            merge_parsed keys parsed
              (collect (map (λ p. (p.0, encode_plain crates encoding data_slice p)) others))))
          (get_parsed_token_accounts-Gives h tokens) (λ parsed. pure-Gives Good ErrorObject _))
        (pure-Gives Good ErrorObject _)

  pub multiple_accounts-Gives :
      (key_texts : List String) (config : Option RpcAccountInfoConfig)
      → Gives Good
          (get_multiple_accounts crates codec key_texts config)
          (multiple_accounts_view crates chain key_texts config)
  unfolding get_multiple_accounts get_encoded_accounts
  multiple_accounts-Gives key_texts config =
      let info = unwrap_or crates.default_account_info_config config in
      let h = block_of crates chain info.commitment in
      let encoding = unwrap_or binary info.encoding in
      if-Gives Good (ltb crates.max_multiple_accounts (length key_texts)) _ _ _ _
        (lift-Gives Good (err _))
        (>>=-Gives Good _ _ (verify_pubkeys crates key_texts) _
          (lift-Gives Good (verify_pubkeys crates key_texts))
          (λ keys.
            >>=-Gives Good _ _ (ok (h, chain.slot h))
              (λ block. ok (record {
                slot = block.1;
                value =
                    encoded_view crates chain block.0 keys encoding info.data_slice
                      (accounts_view crates chain block.0 keys);
              }))
              (get_hash_and_slot-Gives crates codec laws server Good backs chain tells
                (context_of info))
              (λ block.
                >>=-Gives Good _ _
                  (ok (
                    encoded_view crates chain block.0 keys encoding info.data_slice
                      (accounts_view crates chain block.0 keys)))
                  (λ response. ok (record { slot = block.1; value = response }))
                  (>>=-Gives Good _ _ (ok (accounts_view crates chain block.0 keys))
                    (λ accounts.
                      ok (encoded_view crates chain block.0 keys encoding info.data_slice accounts))
                    (resolved-Gives block.0 keys)
                    (λ accounts.
                      encode_resolved-Gives block.0 keys encoding info.data_slice accounts))
                  (λ response. pure-Gives Good ErrorObject _))))
