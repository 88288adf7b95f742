-- ===== src/Rpc/Views/Samples.antt =====
-- A chain with one account, a server that tells of it, and rounds of the connection task in which the
-- server can be reached; for the tests.
use Prim.Native.String
use text.Mathlib.Text.{◌==◌ as str_eq}
use noir_sidecar.Prelude.{
  ℕ, refl, String, true, Option, none, some, List, [], ◌∷◌, map, filter_map, option_map, inl, ◌==◌,
  arith, if◌then◌else◌,
}
use noir_sidecar.Prelude.Result.{Result, ok, err}
use noir_sidecar.Prelude.Words.{to_le_bytes}
use noir_sidecar.Sdk.{Bytes, Pubkey, Account}
use noir_sidecar.Client.{ClientConfig, ArrayParams, Hash, Value, text as text_param}
use noir_sidecar.Client.Codec.{Codec}
use noir_sidecar.Client.Calls.Replies.{HexLaws}
use noir_sidecar.Client.Loop.{Turn, unavailable}
use noir_sidecar.Client.Samples.{plain, plain-HexLaws, encode}
use noir_sidecar.Client.Served.Reached.{Server, Reaches}
use noir_sidecar.Client.Views.{Chain, TellsOf, Computes}
use noir_sidecar.Index.Update.Samples.{token}
use noir_sidecar.Rpc.Tokens.{IndexLookup}

-- Account 10 is the token account, and the finalized block is 6.
abbrev pub account : Pubkey → Option Account
account key = if key == 10 then some token else none

abbrev pub present : Pubkey → Option (Pubkey × Account)
present key = option_map (λ a. (key, a)) (account key)

abbrev pub chain : Chain
chain = record {
  best = 5;
  finalized = 6;
  genesis = 5;
  slot = λ h. 258;
  time = λ h. 258;
  height = λ h. 100;
  account = λ h key. account key;
  balance = λ h key. key;
  fee = λ h message. 9;
  search = λ h program keys filters. filter_map present keys;
}

abbrev pub first_account : Bytes → Result String (Option Account)
first_account [] = err "no key"
first_account (key ∷ keys) = ok (account key)

abbrev pub first_number : Bytes → Result String ℕ
first_number [] = err "no number"
first_number (n ∷ ns) = ok n

abbrev pub keyed_accounts : Bytes → Result String (List (Pubkey × Account))
keyed_accounts [] = err "no program"
keyed_accounts (program ∷ keys) = ok (filter_map present keys)

-- A runtime call answers with its parameters, and the client reads what they name.
abbrev pub codec : Codec
codec = record plain {
  from_value_hash = λ v. if str_eq v "head" then ok 6 else ok 5;
  serialize_message = λ message. ok (9 ∷ []);
  deserialize_account = first_account;
  deserialize_accounts = λ keys. ok (map account keys);
  deserialize_keyed_accounts = keyed_accounts;
  deserialize_u64 = first_number;
}

abbrev pub spelled : String
spelled = String.◌++◌ "0x" (encode (to_le_bytes 8 258))

-- The data of a call comes back as it was sent.
abbrev pub called : ArrayParams → Result String Value
called (text_param method ∷ text_param data' ∷ rest) = ok data'
called params = err "no call"

abbrev pub server : Server
server method params =
    if str_eq method "chain_getFinalizedHead"
    then ok "head"
    else if str_eq method "chain_getBlockHash"
    then ok "block"
    else if str_eq method "state_call"
    then called params
    else ok spelled

computes :
    (method : String) (params : Bytes) (h : Hash) → Computes codec server method params h params
computes method params h = record {
  raw = params;
  spelling = String.◌++◌ "0x" (encode params);
  spells = inl refl;
  replied = (String.◌++◌ "0x" (encode params), refl, refl);
  decoded = refl;
}

pub server-TellsOf : TellsOf codec server chain
server-TellsOf = record {
  best = ("block", refl, refl);
  finalized = ("head", refl, refl);
  genesis = ("block", refl, refl);
  slot = λ h. (omega arith, (spelled, refl, refl));
  time = λ h. (omega arith, (spelled, refl, refl));
  height = λ h. (spelled, refl, refl);
  account = λ h key. (key ∷ [], key ∷ [], refl, refl, computes "getAccountInfo" (key ∷ []) h);
  balance = λ h key. (key ∷ [], key ∷ [], refl, refl, computes "getBalance" (key ∷ []) h);
  fee = λ h message. (9 ∷ [], 9 ∷ [], refl, refl, computes "getFeeForMessage" (9 ∷ []) h);
  accounts = λ h keys. (keys, keys, refl, refl, computes "getMultipleAccounts" keys h);
  search = λ h program keys filters. (
    program ∷ keys,
    program ∷ keys,
    refl,
    refl,
    computes "getProgramAccounts" (program ∷ keys) h,
  );
}

pub codec-HexLaws : HexLaws codec
codec-HexLaws = record { decode-encode = plain-HexLaws.decode-encode }

abbrev pub remote : ClientConfig
remote = record {
  endpoint = "ws://127.0.0.1:9944";
  request_timeout_seconds = none;
  connection_timeout_seconds = none;
  max_concurrent_requests = none;
  max_response_size = none;
}

abbrev pub reachable : Turn
reachable = record {
  ctrl_c = unavailable;
  build = λ options. ok 7;
  is_connected = λ c. true;
  reply = λ c method params. server method params;
  listens = λ id. true;
}

pub reachable-Reaches : Reaches server reachable
reachable-Reaches = record {
  listens = λ id. refl;
  builds = λ options. (7, refl);
  connected = λ c. refl;
  replies = λ c method params. refl;
}

abbrev pub show : ArrayParams → String
show params = "[]"

abbrev pub turns : ℕ → List Turn
turns i = reachable ∷ reachable ∷ reachable ∷ []

-- An index that lists two keys for everything.
abbrev pub lists_two : IndexLookup
lists_two index key sort_results = ok (9 ∷ 10 ∷ [])
