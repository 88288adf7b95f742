-- ===== src/Rpc/Tokens/Encoded.antt =====
-- rpc/solana/mod.rs, `get_encoded_accounts`: how many entries are answered.
use noir_sidecar.Prelude.{
  ◌≡◌, ap, ◌∙◌, Option, List, map, length, length-map, arith, Bool-cases, inl, inr,
}
use noir_sidecar.Prelude.Result.{ok}
use noir_sidecar.Prelude.HashMap.{HashMap, collect}
use noir_sidecar.Sdk.{Pubkey, Account}
use noir_sidecar.Client.{Hash}
use noir_sidecar.Client.Node.{Node, returned, pure, >>=-eq-ok}
use noir_sidecar.Client.Codec.{Codec}
use noir_sidecar.Rpc.{ErrorObject}
use noir_sidecar.Rpc.Crates.{Crates, UiAccountEncoding, UiDataSliceConfig, UiAccount}
use noir_sidecar.Rpc.Encode.{is_json_parsed}
use noir_sidecar.Rpc.Accounts.{filter_known_spl_tokens, get_accounts_from_overwrites_or_node}
use noir_sidecar.Rpc.Accounts.Overwrites.{get_accounts_from_overwrites_or_node_lem}
use noir_sidecar.Rpc.Tokens.{
  get_parsed_token_accounts, encode_plain, merge_parsed, encode_resolved, get_encoded_accounts,
}

module _ (crates : Crates) (codec : Codec) where
  pure-eq :
      {A : Type 0} {a b : A} {n n' : Node}
      → pure {E = ErrorObject} a n ≡ (returned (ok b), n')
      → b ≡ a
  pure-eq h = ground arith

  length-encode_resolved :
      (pubkeys : List Pubkey) (encoding : UiAccountEncoding) (data_slice : Option UiDataSliceConfig)
      (at_hash : Hash) (overwrites : Option (HashMap Account))
      (accounts : List (Pubkey × Option Account)) (n n' : Node) (rs : List (Option UiAccount))
      → length accounts ≡ length pubkeys
      → encode_resolved crates codec pubkeys encoding data_slice at_hash overwrites accounts n
        ≡ (returned (ok rs), n')
      → length rs ≡ length pubkeys
  unfolding encode_resolved merge_parsed
  length-encode_resolved pubkeys encoding data_slice at_hash overwrites accounts n n' rs same h =
      elim (Bool-cases (is_json_parsed encoding)) [
        | inl parsed ↦
            let s = filter_known_spl_tokens crates accounts in
            let (ui, n₁, _, rest) =
              >>=-eq-ok (get_parsed_token_accounts crates codec s.0 at_hash overwrites)
                (λ ui. pure (
                  merge_parsed pubkeys ui
                    (collect (map (λ p. (p.0, encode_plain crates encoding data_slice p)) s.1))))
                n (rw parsed at h) in
            ap length (pure-eq rest) ∙ length-map _ pubkeys
        | inr plain ↦ ap length (pure-eq (rw plain at h)) ∙ length-map _ accounts ∙ same
      ]

  -- A successful `get_encoded_accounts` answers one entry for each key that was asked for, in every
  -- encoding and whatever the overwrites hold.
  pub length-get_encoded_accounts :
      (pubkeys : List Pubkey) (encoding : UiAccountEncoding) (data_slice : Option UiDataSliceConfig)
      (at_hash : Hash) (overwrites : Option (HashMap Account)) (n n' : Node)
      (rs : List (Option UiAccount))
      → get_encoded_accounts crates codec pubkeys encoding data_slice at_hash overwrites n
        ≡ (returned (ok rs), n')
      → length rs ≡ length pubkeys
  unfolding get_encoded_accounts
  length-get_encoded_accounts pubkeys encoding data_slice at_hash overwrites n n' rs h =
      let (accounts, n₁, found, rest) =
        >>=-eq-ok (get_accounts_from_overwrites_or_node crates codec pubkeys overwrites at_hash)
          (encode_resolved crates codec pubkeys encoding data_slice at_hash overwrites) n h in
      let (answered, _, resolved_ok) =
        get_accounts_from_overwrites_or_node_lem crates codec overwrites pubkeys at_hash n n₁
          accounts found in
      length-encode_resolved pubkeys encoding data_slice at_hash overwrites accounts n₁ n' rs
        (ap length resolved_ok ∙ length-map _ pubkeys) rest
