-- ===== src/Client/Calls.antt =====
-- client/mod.rs, `Client::request` and `Client::state_call`, as their callers see them: the message
-- goes to the channel, and what becomes of it is the node's `deliver`.
pub mod Replies
use Prim.Native.String
use noir_sidecar.Prelude.{
  ℕ, String, Option, none, some, List, [], ◌∷◌, length, starts_with, strip_prefix, if◌then◌else◌,
}
use noir_sidecar.Prelude.Result.{Result, ok, err, map_err}
use noir_sidecar.Sdk.{Bytes}
use noir_sidecar.Client.{
  Error, parse_error, request_failed, Value, Hash, text, hash, ArrayParams, Request,
}
use noir_sidecar.Client.Node.{
  Delivery, unsent, dropped, answered, Node, returned, Io, pure, lift, unwrap, ◌>>=◌,
}
use noir_sidecar.Client.Codec.{Codec}

-- The message that `request` sends; its oneshot channel is a fresh one.
abbrev pub new_request : String → ArrayParams → List Request → Request
new_request method params sent = record {
  method = method;
  params = params;
  response = length sent;
  retry = 3;
}

receive : {A : Type 0} → (Value → Result String A) → Delivery → Result Error A
receive from_value (unsent e) = err (request_failed e)
receive from_value (dropped e) = err (request_failed e)
receive from_value (answered (err e)) = err e
receive from_value (answered (ok v)) = map_err parse_error (from_value v)

unfoldable pub send_request : String → ArrayParams → Io Error Delivery
send_request method params n =
    let r = new_request method params n.sent in
    (returned (ok (n.deliver n.sent r)), record n { sent = r ∷ n.sent })

-- `Client::request`, at the type that `from_value` reads.
unfoldable pub request :
    {A : Type 0} → (Value → Result String A) → String → ArrayParams → Io Error A
unfolding receive send_request
request from_value method params = do
  delivery ← send_request method params
  lift (receive from_value delivery)

-- `if s.starts_with("0x") { s = s.strip_prefix("0x").map(…).unwrap(); }`.
unfoldable pub strip_0x : String → Io Error String
strip_0x s = if starts_with "0x" s then unwrap (strip_prefix "0x" s) else pure s

module _ (codec : Codec) where
  -- `hex::decode`, with the error that every caller makes of a failure.
  abbrev pub decode_hex : String → Io Error Bytes
  decode_hex s = lift (map_err parse_error (codec.hex_decode s))

  -- `Client::state_call`, on encoded data and at the type that `decode` reads.
  unfoldable pub state_call :
      {A : Type 0} → (Bytes → Result String A) → String → Bytes → Option Hash → Io Error A
  unfolding request strip_0x
  state_call decode method encoded at_hash = do
    res ←
        request codec.from_value_string "state_call"
          (text method ∷ text (String.◌++◌ "0x" (codec.hex_encode encoded)) ∷ hash at_hash ∷ [])
    stripped ← strip_0x res
    bytes ← decode_hex stripped
    lift (map_err parse_error (decode bytes))
