-- ===== src/Rpc/Methods/Search/Answers.antt =====
-- rpc/solana/mod.rs, `get_program_accounts`: what an answered search was asked for.
use noir_sidecar.Prelude.{
  ℕ, ◌≡◌, ◌≤◌, refl, ap, ◌∙◌, String, Bool, true, false, Option, List, [], ◌∷◌, unwrap_or, length,
  All, ◌&&◌, if◌then◌else◌,
}
use noir_sidecar.Prelude.Result.{ok, >>=-eq-ok as result->>=-eq-ok}
use noir_sidecar.Sdk.{Pubkey, RpcFilterType}
use noir_sidecar.Client.Node.{Node, returned, lift, >>=-eq-ok}
use noir_sidecar.Client.Codec.{Codec}
use noir_sidecar.Rpc.Crates.{Crates, binary, RpcProgramAccountsConfig}
use noir_sidecar.Rpc.Verify.{verify_filter, verify_pubkey}
use noir_sidecar.Rpc.Filters.{optimize_filters}
use noir_sidecar.Rpc.Encode.{is_json_parsed}
use noir_sidecar.Rpc.Accounts.{RpcKeyedAccount}
use noir_sidecar.Rpc.Tokens.{IndexLookup, get_parsed_token_keyed_accounts}
use noir_sidecar.Rpc.Methods.{context_of, get_hash_and_slot}
use noir_sidecar.Rpc.Methods.Guards.{lift-eq-ok, pure-eq-ok, guarded}
use noir_sidecar.Rpc.Methods.Search.{
  OptionalContext, context, no_context, filters_of, wants_context, wants_sorting, account_config_of,
  verify_filters, encode_all, with_slot, search, get_program_accounts,
}

abbrev pub has_context : {A : Type 0} → OptionalContext A → Bool
has_context (context response) = true
has_context (no_context value) = false

module _ (crates : Crates) where
  verify_filters-eq-ok :
      (fs : List RpcFilterType)
      → verify_filters crates fs ≡ ok tt
      → All (λ f. verify_filter crates f ≡ ok tt) fs
  unfolding verify_filters
  verify_filters-eq-ok [] h = tt
  verify_filters-eq-ok (f ∷ fs) h =
      let (_, here, rest) =
        result->>=-eq-ok (verify_filter crates f) (λ _. verify_filters crates fs) h in
      (here, verify_filters-eq-ok fs rest)

  has_context-with_slot :
      (wanted : Bool) (slot : ℕ) (accounts : List RpcKeyedAccount)
      → has_context (with_slot crates wanted slot accounts) ≡ wanted
  unfolding with_slot
  has_context-with_slot true slot accounts = refl
  has_context-with_slot false slot accounts = refl

  module _ (lookup : IndexLookup) (codec : Codec) where
    -- An answered `getProgramAccounts` was asked with a program key that can be read and with no more
    -- filters than the limit, each of them verified; the answer carries its slot exactly when that
    -- was asked for.
    pub get_program_accounts-eq-ok :
        (program_id_str : String) (config : Option RpcProgramAccountsConfig) (n n' : Node)
        (r : OptionalContext (List RpcKeyedAccount))
        → get_program_accounts crates lookup codec program_id_str config n ≡ (returned (ok r), n')
        → ((program_id : Pubkey) × (verify_pubkey crates program_id_str ≡ ok program_id))
          × (length (filters_of config) ≤ crates.max_get_program_account_filters)
          × All (λ f. verify_filter crates f ≡ ok tt) (filters_of config)
          × (has_context r ≡ wants_context config)
    unfolding get_program_accounts
    get_program_accounts-eq-ok program_id_str config n n' r h =
        let info = account_config_of crates config in
        let (program_id, n₁, named, rest₁) =
          >>=-eq-ok (lift (verify_pubkey crates program_id_str)) _ n h in
        let (fits, rest₂) =
          guarded crates codec crates.max_get_program_account_filters (length (filters_of config)) _
            _ rest₁ in
        let (_, n₂, checked, rest₃) =
          >>=-eq-ok (lift (verify_filters crates (filters_of config))) _ n₁ rest₂ in
        let (block, n₃, _, rest₄) =
          >>=-eq-ok (get_hash_and_slot crates codec (context_of info)) _ n₂ rest₃ in
        let (found, n₄, _, rest₅) =
          >>=-eq-ok
            (search crates lookup codec program_id (optimize_filters crates (filters_of config))
              (wants_sorting config) block.0)
            _ n₃ rest₄ in
        let (accounts, n₅, _, rest₆) =
          >>=-eq-ok
            (if crates.is_known_spl_token_id program_id
                && is_json_parsed (unwrap_or binary info.encoding)
              then get_parsed_token_keyed_accounts crates codec found block.0
              else lift (encode_all crates (unwrap_or binary info.encoding) info.data_slice found))
            _ n₄ rest₅ in
        (
          (program_id, lift-eq-ok _ named),
          fits,
          verify_filters-eq-ok (filters_of config) (lift-eq-ok _ checked),
          ap has_context (pure-eq-ok rest₆)
              ∙ has_context-with_slot (wants_context config) block.1 accounts,
        )
