-- ===== src/Client/Calls/Replies.antt =====
-- client/mod.rs, `Client::request` and `Client::state_call`: what each reply of the node becomes.
use Prim.Native.String
use noir_sidecar.Prelude.{
  ◌≡◌, ◌⊎◌, String, Option, none, [], ◌∷◌, inl, inr, strip_prefix, strip_prefix-append,
}
use noir_sidecar.Prelude.Result.{Result, ok, err, map_err}
use noir_sidecar.Sdk.{Bytes}
use noir_sidecar.Client.{parse_error, request_failed, Value, Hash, text, hash, ArrayParams, Request}
use noir_sidecar.Client.Node.{Node, returned, unsent, dropped, answered}
use noir_sidecar.Client.Codec.{Codec}
use noir_sidecar.Client.Calls.{new_request, request, strip_0x, state_call}

-- What the `hex` crate documents.
pub record HexLaws (codec : Codec) : Type 0 where
  pub decode-encode : (bytes : Bytes) → codec.hex_decode (codec.hex_encode bytes) ≡ ok bytes

-- The two spellings of bytes that are accepted: hex digits behind 0x, and hex digits alone.
abbrev pub Spells : Codec → String → Bytes → Type 0
Spells codec s bytes =
    (s ≡ String.◌++◌ "0x" (codec.hex_encode bytes))
    ⊎ ((s ≡ codec.hex_encode bytes) × (strip_prefix "0x" s ≡ none))

abbrev pub state_request : Codec → String → Bytes → Option Hash → Node → Request
state_request codec method encoded at_hash n =
    new_request "state_call"
      (text method ∷ text (String.◌++◌ "0x" (codec.hex_encode encoded)) ∷ hash at_hash ∷ []) n.sent

-- The node answers a state call with a text that spells `bytes`.
pub record Replies (codec : Codec) (n : Node) (method : String) (encoded : Bytes)
    (at_hash : Option Hash) (bytes : Bytes) : Type 0 where
  pub value : Value
  pub spelling : String
  pub delivered :
      n.deliver n.sent (state_request codec method encoded at_hash n) ≡ answered (ok value)
  pub parsed : codec.from_value_string value ≡ ok spelling
  pub spells : Spells codec spelling bytes

strip_0x-Spells :
    (codec : Codec) (s : String) (bytes : Bytes) (n : Node)
    → Spells codec s bytes
    → strip_0x s n ≡ (returned (ok (codec.hex_encode bytes)), n)
unfolding strip_0x
strip_0x-Spells codec s bytes n (inl e) =
    rw e (rw (strip_prefix-append "0x" (codec.hex_encode bytes)))
strip_0x-Spells codec s bytes n (inr (e, plain)) = rw plain (rw e)

-- A state call sends one request, whose data is the hex of the encoded arguments behind 0x. When the
-- answer spells some bytes, with 0x or without, the result is what the caller's decoder makes of
-- these bytes, its failure reported as a parse error.
pub state_call_lem :
    {A : Type 0} (codec : Codec) (decode : Bytes → Result String A) (n : Node) (method : String)
    (encoded : Bytes) (at_hash : Option Hash) (bytes : Bytes)
    → HexLaws codec
    → Replies codec n method encoded at_hash bytes
    → state_call codec decode method encoded at_hash n ≡ (
      returned (map_err parse_error (decode bytes)),
      record n { sent = state_request codec method encoded at_hash n ∷ n.sent },
    )
unfolding state_call request
state_call_lem codec decode n method encoded at_hash bytes laws r = rw (
  r.delivered,
  r.parsed,
  strip_0x-Spells codec r.spelling bytes _ r.spells,
  laws.decode-encode bytes,
)

-- What a caller gets when its message is not sent or its channel closes without an answer: the
-- request failed, whatever type it asked for.
pub request-undelivered :
    {A : Type 0} (from_value : Value → Result String A) (method : String) (params : ArrayParams)
    (n : Node) (e : String)
    → (n.deliver n.sent (new_request method params n.sent) ≡ unsent e)
      ⊎ (n.deliver n.sent (new_request method params n.sent) ≡ dropped e)
    → (request from_value method params n).0 ≡ returned (err (request_failed e))
unfolding request
request-undelivered from_value method params n e (inl h) = rw h
request-undelivered from_value method params n e (inr h) = rw h
