-- ===== src/Client/Samples.antt =====
-- Concrete encodings and nodes for the tests of the client and of what stands on it.
use Prim.Native.Char.{code}
use noir_sidecar.Prelude.{
  ℕ, zero, suc, ◌+◌, ◌≡◌, refl, ap, ◌∙◌, String, none, some, [], ◌∷◌, map, ◌==◌, if◌then◌else◌,
  arith,
}
use noir_sidecar.Prelude.Result.{ok}
use noir_sidecar.Sdk.{Bytes, TransactionSimulationResult}
use noir_sidecar.Client.{Value}
use noir_sidecar.Client.Node.{Node, answered}
use noir_sidecar.Client.Codec.{Codec}
use noir_sidecar.Client.Calls.Replies.{HexLaws}

-- A stand-in for hex: a byte is as many letters a as it counts, and a letter b.
unary : ℕ → String → String
unary zero s = String.◌∷◌ "b" s
unary (suc n) s = String.◌∷◌ "a" (unary n s)

unfoldable pub encode : Bytes → String
unfolding unary
encode [] = ""
encode (b ∷ bs) = unary b (encode bs)

unfoldable pub decode_from : ℕ → String → Bytes
decode_from n String.[] = []
decode_from n (String.◌∷◌ c s) =
    let ended = n ∷ decode_from 0 s in
    let going = decode_from (suc n) s in if code c == b'a' then going else ended

unfoldable pub decode : String → Bytes
unfolding decode_from
decode s = decode_from 0 s

decode_from-unary : (k n : ℕ) (s : String) → decode_from k (unary n s) ≡ (k + n) ∷ decode_from 0 s
unfolding unary decode_from
decode_from-unary k zero s = ap (λ t. t ∷ decode_from 0 s) (omega arith)
decode_from-unary k (suc n) s =
    decode_from-unary (suc k) n s ∙ ap (λ t. t ∷ decode_from 0 s) (omega arith)

pub decode-encode : (bs : Bytes) → decode_from 0 (encode bs) ≡ bs
unfolding encode decode_from
decode-encode [] = refl
decode-encode (b ∷ bs) =
    decode_from-unary 0 b (encode bs)
    ∙ ap (λ t. t ∷ decode_from 0 (encode bs)) (omega arith)
    ∙ ap (λ t. b ∷ t) (decode-encode bs)

abbrev pub no_simulation : TransactionSimulationResult
no_simulation = record {
  result = ok tt;
  logs = [];
  post_simulation_accounts = [];
  units_consumed = 0;
  return_data = none;
  inner_instructions = none;
}

-- Every reply is read as itself, and no account exists.
abbrev pub plain : Codec
plain = record {
  hex_encode = encode;
  hex_decode = λ s. ok (decode s);
  from_value_string = λ v. ok v;
  from_value_optional_string = λ v. ok (some v);
  from_value_hash = λ v. ok 5;
  from_value_header = λ v. ok 100;
  encode_call = λ method params. params;
  decode_reply = λ bytes. ok (ok bytes);
  serialize_pubkey = λ p. ok (p ∷ []);
  serialize_pubkeys = λ ps. ok ps;
  serialize_query = λ p ps fs. ok (p ∷ ps);
  serialize_message = λ m. ok m.body;
  serialize_transaction = λ tx. ok tx.signatures;
  serialize_simulation = λ tx v r. ok tx.signatures;
  deserialize_account = λ bytes. ok none;
  deserialize_accounts = λ bytes. ok (map (λ b. none) bytes);
  deserialize_keyed_accounts = λ bytes. ok [];
  deserialize_u64 = λ bytes. ok 9;
  deserialize_simulation = λ bytes. ok (no_simulation, ([], none));
  bs58_encode_hash = λ h. "genesis";
}

pub plain-HexLaws : HexLaws plain
unfolding decode
plain-HexLaws = record { decode-encode = λ bs. ap ok (decode-encode bs) }

-- A node that answers every request with one value.
abbrev pub constant_node : Value → Node
constant_node v = record { deliver = λ sent r. answered (ok v); sent = [] }
