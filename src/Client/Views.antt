-- ===== src/Client/Views.antt =====
-- client/mod.rs, client/solana.rs: the reads of the client over a server that answers like one chain.
pub mod Requests
pub mod Reads
use Prim.Native.String
use noir_sidecar.Prelude.{
  ℕ, ◌^◌, ◌<◌, ◌≡◌, refl, ap, ◌∙◌, String, Bool, true, false, Option, some, List, [], ◌∷◌, map,
  if◌then◌else◌,
}
use noir_sidecar.Prelude.Result.{Result, ok, err, map_err}
use noir_sidecar.Prelude.Result.{◌>>=◌ as ◌>>=?◌}
use noir_sidecar.Prelude.Words.{to_le_bytes, as_i64, saturating_add_u32}
use noir_sidecar.Sdk.{Bytes, Pubkey, Account, RpcFilterType, VersionedMessage}
use noir_sidecar.Client.{client_error, Value, Hash, Param, text, number, hash, ArrayParams}
use noir_sidecar.Client.Node.{
  Node, Outcome, returned, answered, Io, pure, lift, ◌>>=◌, continue, map_err_io, rethrow,
}
use noir_sidecar.Client.Codec.{Codec}
use noir_sidecar.Client.Calls.{new_request, request}
use noir_sidecar.Client.Calls.Replies.{HexLaws, Spells}
use noir_sidecar.Client.Served.Reached.{Server}
use noir_sidecar.Client.Solana.{
  timestamp_key, slot_key, max_age, runtime_call, get_account, get_balance, get_genesis_hash,
  get_timestamp, get_slot, get_fee_for_message, latest_blockhash, finalized_blockhash,
  get_last_valid_block_height,
}
use noir_sidecar.Client.Solana.Accounts.{runtime_call_lem}
use noir_sidecar.Client.Solana.Storage.{get_slot_lem, get_timestamp_lem}

-- What a chain tells, at each of its blocks.
pub record Chain : Type 0 where
  pub best : Hash
  pub finalized : Hash
  pub genesis : Hash
  pub slot : Hash → ℕ
  pub time : Hash → ℕ
  pub height : Hash → ℕ
  pub account : Hash → Pubkey → Option Account
  pub balance : Hash → Pubkey → ℕ
  pub fee : Hash → VersionedMessage → ℕ
  pub search : Hash → Pubkey → List Pubkey → List RpcFilterType → List (Pubkey × Account)

module _ (codec : Codec) (server : Server) where
  -- The server answers a request with a value that is read as `a`.
  abbrev pub Answers : {A : Type 0} → (Value → Result String A) → String → ArrayParams → A → Type 0
  Answers from_value method params a =
      (v : Value) × (server method params ≡ ok v) × (from_value v ≡ ok a)

  -- The server stores a 64-bit number under a key, as eight little-endian bytes in hex.
  abbrev pub Holds : String → Hash → ℕ → Type 0
  Holds key at_hash x =
      (x < 2 ^ 64)
      × Answers codec.from_value_optional_string "state_getStorage"
          (text key ∷ hash (some at_hash) ∷ [])
          (some (String.◌++◌ "0x" (codec.hex_encode (to_le_bytes 8 x))))

  -- The runtime answers a call at its method and parameters with some bytes, in hex.
  pub record Computes (method : String) (params : Bytes) (at_hash : Hash) (response : Bytes)
      : Type 0 where
    pub raw : Bytes
    pub spelling : String
    pub spells : Spells codec spelling raw
    pub replied :
        Answers codec.from_value_string "state_call"
          (text "SolanaRuntimeApi_call"
            ∷ text (String.◌++◌ "0x" (codec.hex_encode (codec.encode_call method params)))
            ∷ hash (some at_hash)
            ∷ [])
          spelling
    pub decoded : codec.decode_reply raw ≡ ok (ok response)

  -- A runtime call with an argument, and the value that its answer decodes to.
  abbrev pub Calls :
      {I O : Type 0}
      → (I → Result String Bytes)
      → (Bytes → Result String O)
      → String
      → I
      → Hash
      → O
      → Type 0
  Calls serialize deserialize method i at_hash o =
      (params : Bytes) × (response : Bytes) × (serialize i ≡ ok params)
      × (deserialize response ≡ ok o)
      × Computes method params at_hash response

  -- The server answers as the chain is: the interface of a Substrate node with the Solana runtime.
  pub record TellsOf (chain : Chain) : Type 0 where
    pub best : Answers codec.from_value_hash "chain_getBlockHash" [] chain.best
    pub finalized : Answers codec.from_value_hash "chain_getFinalizedHead" [] chain.finalized
    pub genesis : Answers codec.from_value_hash "chain_getBlockHash" (number 0 ∷ []) chain.genesis
    pub slot : (h : Hash) → Holds slot_key h (chain.slot h)
    pub time : (h : Hash) → Holds timestamp_key h (chain.time h)
    pub height :
        (h : Hash)
        → Answers codec.from_value_header "chain_getHeader" (hash (some h) ∷ []) (chain.height h)
    pub account :
        (h : Hash) (key : Pubkey)
        → Calls codec.serialize_pubkey codec.deserialize_account "getAccountInfo" key h
            (chain.account h key)
    pub balance :
        (h : Hash) (key : Pubkey)
        → Calls codec.serialize_pubkey codec.deserialize_u64 "getBalance" key h
            (chain.balance h key)
    pub fee :
        (h : Hash) (message : VersionedMessage)
        → Calls codec.serialize_message codec.deserialize_u64 "getFeeForMessage" message h
            (chain.fee h message)
    pub accounts :
        (h : Hash) (keys : List Pubkey)
        → Calls codec.serialize_pubkeys codec.deserialize_accounts "getMultipleAccounts" keys h
            (map (chain.account h) keys)
    pub search :
        (h : Hash) (program : Pubkey) (keys : List Pubkey) (filters : List RpcFilterType)
        → Calls
            (λ (q : Pubkey × List Pubkey × List RpcFilterType). codec.serialize_query q.0 q.1 q.2)
            codec.deserialize_keyed_accounts
            "getProgramAccounts"
            (program, keys, filters)
            h
            (chain.search h program keys filters)

-- The good nodes answer as the server does, and stay good.
pub record Backs (server : Server) (Good : Node → Type 0) : Type 0 where
  pub delivers :
      (method : String) (params : ArrayParams) (n : Node)
      → Good n
      → n.deliver n.sent (new_request method params n.sent)
        ≡ answered (map_err client_error (server method params))
  pub stays :
      (method : String) (params : ArrayParams) (n : Node)
      → Good n
      → Good (record n { sent = new_request method params n.sent ∷ n.sent })

module _ (Good : Node → Type 0) where
  -- From every good node the computation returns `r`, and leaves a good node.
  unfoldable pub Gives : {E A : Type 0} → Io E A → Result E A → Type 0
  Gives m r = (n : Node) → Good n → (n' : Node) × Good n' × (m n ≡ (returned r, n'))

  pub lift-Gives : {E A : Type 0} (r : Result E A) → Gives (lift r) r
  unfolding Gives
  lift-Gives r n good = (n, good, refl)

  pub pure-Gives : (E : Type 0) {A : Type 0} (a : A) → Gives {E = E} (pure {E = E} a) (ok a)
  unfolding Gives
  pure-Gives E a n good = (n, good, refl)

  rethrow_returned :
      {E F A : Type 0} (g : E → F) (r : Result E A) (n : Node)
      → rethrow g (returned r, n) ≡ (returned (map_err g r), n)
  rethrow_returned g (ok a) n = refl
  rethrow_returned g (err e) n = refl

  pub map_err_io-Gives :
      {E F A : Type 0} (g : E → F) (m : Io E A) (r : Result E A)
      → Gives m r
      → Gives (map_err_io g m) (map_err g r)
  unfolding Gives
  map_err_io-Gives g m r gives n good =
      let (n', good', e) = gives n good in (n', good', ap (rethrow g) e ∙ rethrow_returned g r n')

  continue_returned :
      {E A B : Type 0} (r : Result E A) (f : A → Io E B) (g : A → Result E B) (n : Node)
      → Good n
      → ((a : A) → Gives (f a) (g a))
      → (n' : Node) × Good n' × (continue (returned r, n) f ≡ (returned (r >>=? g), n'))
  unfolding Gives
  continue_returned (ok a) f g n good next = next a n good
  continue_returned (err e) f g n good next = (n, good, refl)

  pub >>=-Gives :
      {E A B : Type 0} (m : Io E A) (f : A → Io E B) (r : Result E A) (g : A → Result E B)
      → Gives m r
      → ((a : A) → Gives (f a) (g a))
      → Gives (m >>= f) (r >>=? g)
  unfolding Gives
  >>=-Gives m f r g first next n good =
      let (n₁, good₁, e) = first n good in
      let (n₂, good₂, e₂) = continue_returned r f g n₁ good₁ next in
      (n₂, good₂, ap (λ o. continue o f) e ∙ e₂)

  pub if-Gives :
      {E A : Type 0} (b : Bool) (m k : Io E A) (r s : Result E A)
      → Gives m r
      → Gives k s
      → Gives (if b then m else k) (if b then r else s)
  if-Gives true m k r s first second = first
  if-Gives false m k r s first second = second

  pub if_ok-Gives :
      {E A : Type 0} (c : Bool) (m k : Io E A) (a b : A)
      → Gives m (ok a)
      → Gives k (ok b)
      → Gives (if c then m else k) (ok (if c then a else b))
  if_ok-Gives true m k a b first second = first
  if_ok-Gives false m k a b first second = second
