-- ===== src/Client/Views/Reads.antt =====
-- client/solana.rs: each read, from a good node of a server that tells of a chain.
use noir_sidecar.Prelude.{
  ◌≡◌, refl, ap, ◌∙◌, subst, true, Option, some, List, [], ◌∷◌, map, zip, length, length-map, ◌==◌,
  arith,
}
use noir_sidecar.Prelude.Result.{ok, map_err}
use noir_sidecar.Prelude.Words.{as_i64, saturating_add_u32}
use noir_sidecar.Sdk.{Pubkey, Account, RpcFilterType, VersionedMessage}
use noir_sidecar.Client.{Error, client_error, Hash, text, hash}
use noir_sidecar.Client.Node.{Node, answered}
use noir_sidecar.Client.Codec.{Codec}
use noir_sidecar.Client.Calls.{new_request}
use noir_sidecar.Client.Calls.Replies.{HexLaws}
use noir_sidecar.Client.Served.Reached.{Server}
use noir_sidecar.Client.Solana.{
  timestamp_key, slot_key, max_age, get_account, pair_accounts, get_accounts,
  get_filtered_indexed_accounts, get_balance, get_genesis_hash, get_timestamp, get_slot,
  get_fee_for_message, latest_blockhash, finalized_blockhash, get_last_valid_block_height,
}
use noir_sidecar.Client.Solana.Storage.{get_slot_lem, get_timestamp_lem}
use noir_sidecar.Client.Views.{Chain, TellsOf, Backs, Gives, lift-Gives, pure-Gives, >>=-Gives}
use noir_sidecar.Client.Views.Requests.{request-Gives, call-Gives, call_then-Gives}

module _ (codec : Codec) (laws : HexLaws codec) (server : Server) (Good : Node → Type 0)
    (backs : Backs server Good) where
  module _ (chain : Chain) (tells : TellsOf codec server chain) where
    pub latest_blockhash-Gives : Gives Good (latest_blockhash codec) (ok chain.best)
    unfolding latest_blockhash
    latest_blockhash-Gives =
        request-Gives codec laws server Good backs codec.from_value_hash _ _ _ tells.best

    pub finalized_blockhash-Gives : Gives Good (finalized_blockhash codec) (ok chain.finalized)
    unfolding finalized_blockhash
    finalized_blockhash-Gives =
        request-Gives codec laws server Good backs codec.from_value_hash _ _ _ tells.finalized

    pub get_genesis_hash-Gives :
        Gives Good (get_genesis_hash codec) (ok (codec.bs58_encode_hash chain.genesis))
    unfolding get_genesis_hash
    get_genesis_hash-Gives =
        >>=-Gives Good _ _ (ok chain.genesis) (λ genesis. ok (codec.bs58_encode_hash genesis))
          (request-Gives codec laws server Good backs codec.from_value_hash _ _ _ tells.genesis)
          (λ genesis. pure-Gives Good Error _)

    pub get_slot-Gives : (h : Hash) → Gives Good (get_slot codec h) (ok (chain.slot h))
    unfolding Gives
    get_slot-Gives h n good =
        let (bound, held) = tells.slot h in
        let (v, replied, read) = held in
        (
          record n {
            sent =
                new_request "state_getStorage" (text slot_key ∷ hash (some h) ∷ []) n.sent ∷ n.sent;
          },
          backs.stays _ _ n good,
          get_slot_lem codec laws n h (chain.slot h) bound (record {
            value = v;
            delivered =
                backs.delivers _ _ n good ∙ ap (λ r. answered (map_err client_error r)) replied;
            parsed = read;
          }),
        )

    pub get_timestamp-Gives :
        (h : Hash) → Gives Good (get_timestamp codec h) (ok (as_i64 (chain.time h)))
    unfolding Gives
    get_timestamp-Gives h n good =
        let (bound, held) = tells.time h in
        let (v, replied, read) = held in
        (
          record n {
            sent =
                new_request "state_getStorage" (text timestamp_key ∷ hash (some h) ∷ []) n.sent
                ∷ n.sent;
          },
          backs.stays _ _ n good,
          get_timestamp_lem codec laws n h (chain.time h) bound (record {
            value = v;
            delivered =
                backs.delivers _ _ n good ∙ ap (λ r. answered (map_err client_error r)) replied;
            parsed = read;
          }),
        )

    pub get_last_valid_block_height-Gives :
        (h : Hash)
        → Gives Good
            (get_last_valid_block_height codec h)
            (ok (saturating_add_u32 (chain.height h) (max_age codec)))
    unfolding get_last_valid_block_height
    get_last_valid_block_height-Gives h =
        >>=-Gives Good _ _ (ok (chain.height h))
          (λ header. ok (saturating_add_u32 header (max_age codec)))
          (request-Gives codec laws server Good backs codec.from_value_header _ _ _
            (tells.height h))
          (λ header. pure-Gives Good Error _)

    pub get_account-Gives :
        (h : Hash) (key : Pubkey)
        → Gives Good (get_account codec key (some h)) (ok (chain.account h key))
    unfolding get_account
    get_account-Gives h key =
        call-Gives codec laws server Good backs codec.serialize_pubkey codec.deserialize_account
          "getAccountInfo" key h _ (tells.account h key)

    pub get_balance-Gives :
        (h : Hash) (key : Pubkey) → Gives Good (get_balance codec key h) (ok (chain.balance h key))
    unfolding get_balance
    get_balance-Gives h key =
        call-Gives codec laws server Good backs codec.serialize_pubkey codec.deserialize_u64
          "getBalance" key h _ (tells.balance h key)

    pub get_fee_for_message-Gives :
        (h : Hash) (message : VersionedMessage)
        → Gives Good (get_fee_for_message codec message (some h)) (ok (chain.fee h message))
    unfolding get_fee_for_message
    get_fee_for_message-Gives h message =
        call-Gives codec laws server Good backs codec.serialize_message codec.deserialize_u64
          "getFeeForMessage" message h _ (tells.fee h message)

    zip-map : {A B : Type 0} (f : A → B) (xs : List A) → zip xs (map f xs) ≡ map (λ x. (x, f x)) xs
    zip-map f [] = refl
    zip-map f (x ∷ xs) = ap (λ rest. (x, f x) ∷ rest) (zip-map f xs)

    pair_accounts-map :
        (f : Pubkey → Option Account) (keys : List Pubkey)
        → pair_accounts codec keys (map f keys) ≡ ok (map (λ k. (k, f k)) keys)
    unfolding pair_accounts
    pair_accounts-map f keys =
        let same : (length keys == length (map f keys)) ≡ true =
          ground (arith, length-map f keys) in
        rw (same, zip-map f keys) refl

    pub get_accounts-Gives :
        (h : Hash) (keys : List Pubkey)
        → Gives Good
            (get_accounts codec keys (some h))
            (ok (map (λ k. (k, chain.account h k)) keys))
    unfolding get_accounts
    get_accounts-Gives h keys = subst (Gives Good _) (pair_accounts-map (chain.account h) keys) (
        call_then-Gives codec laws server Good backs codec.serialize_pubkeys
          codec.deserialize_accounts "getMultipleAccounts" keys h (map (chain.account h) keys) _
          (λ accounts. pair_accounts codec keys accounts) (tells.accounts h keys)
          (λ accounts. lift-Gives Good (pair_accounts codec keys accounts)))

    pub get_filtered_indexed_accounts-Gives :
        (h : Hash) (program : Pubkey) (keys : List Pubkey) (filters : List RpcFilterType)
        → Gives Good
            (get_filtered_indexed_accounts codec program keys filters (some h))
            (ok (chain.search h program keys filters))
    unfolding get_filtered_indexed_accounts
    get_filtered_indexed_accounts-Gives h program keys filters =
        call-Gives codec laws server Good backs
          (λ (q : Pubkey × List Pubkey × List RpcFilterType). codec.serialize_query q.0 q.1 q.2)
          codec.deserialize_keyed_accounts "getProgramAccounts" (program, keys, filters) h _
          (tells.search h program keys filters)
