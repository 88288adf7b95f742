-- ===== src/Client/Solana/Accounts.antt =====
-- client/solana.rs: the runtime calls, `get_accounts` in particular.
use noir_sidecar.Prelude.{
  ◌≡◌, ◌≢◌, String, Option, List, ◌∷◌, map, length, zip, map-zip_fst, arith, ◌==◌, Bool-cases,
  ==_iff, inl, inr, false,
}
use noir_sidecar.Prelude.Result.{Result, ok, err, map_err}
use noir_sidecar.Sdk.{Bytes, Pubkey, Account}
use noir_sidecar.Client.{Error, Hash, invalid_request, unexpected_response, parse_error}
use noir_sidecar.Client.Node.{Node, returned, continue, lift, ◌>>=◌, >>=-eq-ok}
use noir_sidecar.Client.Codec.{Codec}
use noir_sidecar.Client.Calls.Replies.{HexLaws, Replies, state_request, state_call_lem}
use noir_sidecar.Client.Solana.{runtime_call, pair_accounts, get_accounts}

module _ (codec : Codec) where
  pair_accounts-keys :
      (pubkeys : List Pubkey) (accounts : List (Option Account))
      (rs : List (Pubkey × Option Account))
      → pair_accounts codec pubkeys accounts ≡ ok rs
      → map (λ r. r.0) rs ≡ pubkeys
  unfolding pair_accounts
  pair_accounts-keys pubkeys accounts rs h = elim (Bool-cases (length pubkeys == length accounts)) [
    | inl same ↦
        let zipped : zip pubkeys accounts ≡ rs = ground (arith, same) in
        rw (← zipped) (map-zip_fst pubkeys accounts ((==_iff _ _).0 same))
    | inr other ↦ absurd (ground (arith, other))
  ]

  paired-keys :
      (pubkeys : List Pubkey) (r : Result Error (List (Option Account))) (n n' : Node)
      (rs : List (Pubkey × Option Account))
      → continue (returned r, n) (λ accounts. lift (pair_accounts codec pubkeys accounts))
        ≡ (returned (ok rs), n')
      → map (λ r. r.0) rs ≡ pubkeys
  paired-keys pubkeys (ok accounts) n n' rs h =
      pair_accounts-keys pubkeys accounts rs (ground arith)
  paired-keys pubkeys (err e) n n' rs h = cc

  -- Whatever the node does, a successful `get_accounts` returns one entry for each key that was
  -- asked for, in the order asked.
  pub get_accounts-keys :
      (pubkeys : List Pubkey) (at_hash : Option Hash) (n n' : Node)
      (rs : List (Pubkey × Option Account))
      → get_accounts codec pubkeys at_hash n ≡ (returned (ok rs), n')
      → map (λ r. r.0) rs ≡ pubkeys
  unfolding get_accounts
  get_accounts-keys pubkeys at_hash n n' rs h =
      let (response, n₁, _, rest) =
        >>=-eq-ok
          (runtime_call codec "getMultipleAccounts" (codec.serialize_pubkeys pubkeys) at_hash)
          (λ response.
            lift (map_err parse_error (codec.deserialize_accounts response)) >>= λ accounts.
            lift (pair_accounts codec pubkeys accounts))
          n h in
      paired-keys pubkeys (map_err parse_error (codec.deserialize_accounts response)) n₁ n' rs rest

  -- The runtime call: one request, and the inner result of the runtime with its error renamed.
  pub runtime_call_lem :
      (method : String) (n : Node) (params raw : Bytes) (reply : Result String Bytes)
      (at_hash : Option Hash)
      → HexLaws codec
      → Replies codec n "SolanaRuntimeApi_call" (codec.encode_call method params) at_hash raw
      → codec.decode_reply raw ≡ ok reply
      → runtime_call codec method (ok params) at_hash n ≡ (
        returned (map_err invalid_request reply),
        record n {
          sent =
              state_request codec "SolanaRuntimeApi_call"
                (codec.encode_call method params)
                at_hash
                n
              ∷ n.sent;
        },
      )
  unfolding runtime_call
  runtime_call_lem method n params raw reply at_hash laws r d = rw (
    state_call_lem codec codec.decode_reply n "SolanaRuntimeApi_call"
        (codec.encode_call method params) at_hash raw laws r,
    d,
  )

  -- When the runtime answers with another number of accounts than keys were asked for, the call is
  -- refused as an unexpected response, and no account is returned.
  pub get_accounts-mismatch :
      (pubkeys : List Pubkey) (at_hash : Option Hash) (n : Node) (params raw response : Bytes)
      (accounts : List (Option Account))
      → HexLaws codec
      → codec.serialize_pubkeys pubkeys ≡ ok params
      → Replies codec n "SolanaRuntimeApi_call"
          (codec.encode_call "getMultipleAccounts" params)
          at_hash
          raw
      → codec.decode_reply raw ≡ ok (ok response)
      → codec.deserialize_accounts response ≡ ok accounts
      → length pubkeys ≢ length accounts
      → (get_accounts codec pubkeys at_hash n).0
        ≡ returned (err (unexpected_response "Account count mismatch with public keys."))
  unfolding get_accounts pair_accounts
  get_accounts-mismatch pubkeys at_hash n params raw response accounts laws sp r d da other = rw (
    sp,
    runtime_call_lem "getMultipleAccounts" n params raw (ok response) at_hash laws r d,
    da,
    differ,
  )
    where
      differ : (length pubkeys == length accounts) ≡ false
      differ = ground arith
