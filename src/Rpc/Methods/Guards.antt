-- ===== src/Rpc/Methods/Guards.antt =====
-- rpc/solana/mod.rs: what the methods' guards and answers promise.
use noir_sidecar.Prelude.{
  ℕ, ◌≡◌, ◌≤◌, refl, ap, sym, ◌∙◌, String, Option, none, some, List, [], ◌∷◌, map, unwrap_or,
  length, length-map, ltb, arith, Bool-cases, inl, inr, if◌then◌else◌,
}
use noir_sidecar.Prelude.Result.{Result, ok, err, map_err, collect, map_ok-collect}
use noir_sidecar.Sdk.{Pubkey, Signature}
use noir_sidecar.Client.Node.{Node, returned, pure, fail, lift, >>=-eq-ok}
use noir_sidecar.Client.Codec.{Codec}
use noir_sidecar.Rpc.{ErrorObject, Rpc, RpcResult}
use noir_sidecar.Rpc.Crates.{Crates, binary, UiAccount, RpcAccountInfoConfig, processed}
use noir_sidecar.Rpc.Verify.{invalid_params, verify_pubkeys, verify_pubkey, verify_signature}
use noir_sidecar.Rpc.Tokens.{get_encoded_accounts}
use noir_sidecar.Rpc.Tokens.Encoded.{length-get_encoded_accounts}
use noir_sidecar.Rpc.Methods.{
  RpcResponse, TransactionStatus, context_of, get_hash_and_slot, get_multiple_accounts,
  get_statuses, get_signature_statuses,
}

length-collect :
    {A E : Type 0} (rs : List (Result E A)) (xs : List A)
    → collect rs ≡ ok xs
    → length xs ≡ length rs
length-collect rs xs h = sym (ap length (map_ok-collect rs xs h) ∙ length-map ok xs)

pub lift-eq-ok :
    {A : Type 0} (r : RpcResult A) {a : A} {n n' : Node}
    → lift r n ≡ (returned (ok a), n')
    → r ≡ ok a
lift-eq-ok r h = ground arith

pub pure-eq-ok :
    {A : Type 0} {a b : A} {n n' : Node}
    → pure {E = ErrorObject} a n ≡ (returned (ok b), n')
    → b ≡ a
pure-eq-ok h = ground arith

map_err-eq-ok :
    {A E F : Type 0} (f : E → F) (r : Result E A) {a : A} → map_err f r ≡ ok a → r ≡ ok a
map_err-eq-ok f (ok a) h = ground arith
map_err-eq-ok f (err e) h = cc

module _ (crates : Crates) where
  pub length-verify_pubkeys :
      (strs : List String) (pubkeys : List Pubkey)
      → verify_pubkeys crates strs ≡ ok pubkeys
      → length pubkeys ≡ length strs
  unfolding verify_pubkeys
  length-verify_pubkeys strs pubkeys h =
      length-collect _ pubkeys (
        map_err-eq-ok (λ e. invalid_params crates (some (crates.debug_error_object e)))
          (collect (map (verify_pubkey crates) strs)) h)
      ∙ length-map (verify_pubkey crates) strs

  statuses-none :
      (signatures : List Signature) (n : Node)
      → get_statuses crates signatures n ≡ (returned (ok (map (λ s. none) signatures)), n)
  unfolding get_statuses
  statuses-none [] n = refl
  statuses-none (s ∷ ss) n = rw (statuses-none ss n) refl

  module _ (codec : Codec) where
    pub guarded :
        {A : Type 0} (limit count : ℕ) (e : ErrorObject) (k : Rpc A) {n n' : Node} {a : A}
        → (if ltb limit count then fail e else k) n ≡ (returned (ok a), n')
        → (count ≤ limit) × (k n ≡ (returned (ok a), n'))
    guarded limit count e k {n} h = elim (Bool-cases (ltb limit count)) [
      | inl long ↦ absurd (ground (arith, long))
      | inr fits ↦ (ground (arith, fits), ground (arith, fits))
    ]

    -- A successful `get_multiple_accounts` was asked for no more keys than the limit, and answers one
    -- entry for each key.
    pub length-get_multiple_accounts :
        (pubkey_strs : List String) (config : Option RpcAccountInfoConfig) (n n' : Node)
        (r : RpcResponse (List (Option UiAccount)))
        → get_multiple_accounts crates codec pubkey_strs config n ≡ (returned (ok r), n')
        → (length pubkey_strs ≤ crates.max_multiple_accounts)
          × (length r.value ≡ length pubkey_strs)
    unfolding get_multiple_accounts
    length-get_multiple_accounts pubkey_strs config n n' r h =
        let info = unwrap_or crates.default_account_info_config config in
        let (fits, rest) = guarded crates.max_multiple_accounts (length pubkey_strs) _ _ h in
        let (pubkeys, n₁, verified, rest₁) =
          >>=-eq-ok (lift (verify_pubkeys crates pubkey_strs)) _ n rest in
        let (block, n₂, _, rest₂) =
          >>=-eq-ok (get_hash_and_slot crates codec (context_of info)) _ n₁ rest₁ in
        let (response, n₃, encoded, rest₃) =
          >>=-eq-ok
            (get_encoded_accounts crates codec pubkeys (unwrap_or binary info.encoding)
              info.data_slice block.0 none)
            _ n₂ rest₂ in
        (
          fits,
          ap (λ x. length x.value) (pure-eq-ok rest₃)
              ∙ length-get_encoded_accounts crates codec pubkeys (unwrap_or binary info.encoding)
                  info.data_slice block.0 none n₂ n₃ response encoded
              ∙ length-verify_pubkeys pubkey_strs pubkeys (lift-eq-ok _ verified),
        )

    -- A successful `get_signature_statuses` was asked for no more signatures than the limit, every one
    -- of them is a signature, and the answer says for each that nothing is known.
    pub get_signature_statuses-eq-ok :
        (signature_strs : List String) (n n' : Node)
        (r : RpcResponse (List (Option TransactionStatus)))
        → get_signature_statuses crates codec signature_strs n ≡ (returned (ok r), n')
        → (length signature_strs ≤ crates.max_get_signature_statuses_query_items)
          × ((signatures : List Signature) × (map (verify_signature crates) signature_strs
                ≡ map ok signatures)
              × (r.value ≡ map (λ s. none) signatures))
    unfolding get_signature_statuses
    get_signature_statuses-eq-ok signature_strs n n' r h =
        let (fits, rest) =
          guarded crates.max_get_signature_statuses_query_items (length signature_strs) _ _ h in
        let (signatures, n₁, verified, rest₁) =
          >>=-eq-ok (lift (collect (map (verify_signature crates) signature_strs))) _ n rest in
        let (block, n₂, _, rest₂) =
          >>=-eq-ok
            (get_hash_and_slot crates codec
              (record { commitment = some processed; min_context_slot = none }))
            _ n₁ rest₁ in
        let (statuses, n₃, known, rest₃) = >>=-eq-ok (get_statuses crates signatures) _ n₂ rest₂ in
        (
          fits,
          (
            signatures,
            map_ok-collect _ signatures (lift-eq-ok _ verified),
            ap (λ x. x.value) (pure-eq-ok rest₃)
                ∙ pure-eq-ok (sym (statuses-none signatures n₂) ∙ known),
          ),
        )
