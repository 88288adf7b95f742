-- ===== src/System/Answers/Tests.antt =====
-- main.rs: the account of one message, from the worker to the answer of a method.
use Prim.Native.String
use text.Mathlib.Text.{◌==◌ as str_eq}
use noir_sidecar.Prelude.{
  ◌≡◌, refl, ◌∙◌, sym, ap, true, Bool-cases, inl, inr, Option, none, some, List, [], ◌∷◌,
  filter_map, option_map, Occurs, ◌==◌, ==_iff, if◌then◌else◌, arith, strip_prefix,
}
use noir_sidecar.Prelude.Result.{ok}
use noir_sidecar.Sdk.{Pubkey, Account}
use noir_sidecar.Client.Calls.{state_call}
use noir_sidecar.Client.Samples.{constant_node, encode, decode}
use noir_sidecar.Client.Served.{task_node}
use noir_sidecar.Client.Solana.{get_accounts, runtime_call}
use noir_sidecar.Index.{get_index_name}
use noir_sidecar.Index.Contract.{row_view, contains_key}
use noir_sidecar.Index.Samples.{unary_keys, Table, listed, sqlite_table}
use noir_sidecar.Index.Sqlite
use noir_sidecar.Index.Update.Found.{IsToken}
use noir_sidecar.Index.Update.{index_accounts, update_index, on_message}
use noir_sidecar.Index.Update.Samples.{crates, token, TableSound, sqlite_contract, empty-TableSound}
use noir_sidecar.Rpc.Crates.{Crates, base64, RpcAccountInfoConfig}
use noir_sidecar.Rpc.Samples.{sample}
use noir_sidecar.Rpc.Views.Samples.{
  present, chain, codec, server, server-TellsOf, codec-HexLaws, remote, reachable-Reaches, show,
  turns,
}
use noir_sidecar.Rpc.Verify.{verify_pubkey}
use noir_sidecar.Rpc.Views.Served.{IsServed, task_node-Backs}
use noir_sidecar.System.{System, take, here}
use noir_sidecar.System.Answers.{Finds, AnswersWith, take-AnswersWith}
use noir_sidecar.System.Samples.{ids, config}
use noir_sidecar.System.Searches.{Handles}
use noir_sidecar.System.Start.{exclude_keys, subscriber}

abbrev rpc : Crates
rpc = record sample {
  pubkey_from_str = λ s. if str_eq s "owner" then ok 30 else ok 6;
  is_known_spl_token_id = λ k. k == 6;
}

-- The message about account 10 waits.
abbrev told : System Table
told = record {
  subscription = record { connected = true; delivered = (0, 10 ∷ []) ∷ [] };
  handled = [];
  alive = true;
  database = [];
  node = constant_node (String.◌++◌ "0x" (encode (10 ∷ [])));
}

abbrev done : System Table
done = take crates (Sqlite.indexer sqlite_table unary_keys) codec (exclude_keys ids) (10 ∷ []) told

token-IsToken : IsToken crates token (record { mint = 20; owner = 30 })
token-IsToken = record { known = refl; unpacks = refl }

account_10-Handles :
    Handles crates
      (Sqlite.indexer sqlite_table unary_keys)
      codec
      (exclude_keys ids)
      (subscriber config).filters
      TableSound
      (row_view unary_keys listed)
      sqlite_contract
      rpc
      (10 ∷ [])
      10
      token
      told
unfolding get_accounts on_message update_index index_accounts take runtime_call state_call
    strip_prefix Sqlite.insert_index get_index_name encode decode
account_10-Handles = record {
  pubkeys = 10 ∷ [];
  answered = (10, some token) ∷ [];
  after = (get_accounts codec (10 ∷ []) none told.node).1;
  index = done.database;
  decoded = refl;
  fetched = refl;
  occurs = inl refl;
  indexes = refl;
}

keep_found :
    (p : Pubkey × Account) (o : Option (Pubkey × Account)) (key : Pubkey) (keys : List Pubkey)
    → present key ≡ o
    → Occurs (λ q. q ≡ p) (filter_map present keys)
    → Occurs (λ q. q ≡ p) (filter_map present (key ∷ keys))
keep_found p none key keys e rest = rw e rest
keep_found p (some q) key keys e rest = rw e (inr rest)

present_found :
    (key : Pubkey) (p : Pubkey × Account) (keys : List Pubkey)
    → contains_key key keys ≡ true
    → present key ≡ some p
    → Occurs (λ q. q ≡ p) (filter_map present keys)
present_found key p [] contained e = cc
present_found key p (k ∷ keys) contained e = elim (Bool-cases (key == k)) [
  | inl same ↦
      let found : present k ≡ some p = ap present (sym ((==_iff key k).0 same)) ∙ e in
      rw found (inl refl)
  | inr other ↦
      keep_found p (present k) k keys refl
        (present_found key p keys (ground (arith, contained, other)) e)
]

chain-Finds : Finds crates rpc chain (λ f a. true)
chain-Finds = record {
  finds = λ h program_id key a keys filters contained exists owned passes.
      present_found key (key, a) keys contained (ap (option_map (λ x. (key, x))) exists);
  in_state = λ a t is_token. refl;
  has_owner = λ a t is_token. refl;
}

abbrev in_base64 : RpcAccountInfoConfig
in_base64 = record {
  encoding = some base64;
  data_slice = none;
  commitment = none;
  min_context_slot = none;
}

take-AnswersWith_example :
    AnswersWith crates
      (Sqlite.indexer sqlite_table unary_keys)
      codec
      (exclude_keys ids)
      (subscriber config).filters
      TableSound
      (row_view unary_keys listed)
      sqlite_contract
      rpc
      chain
      (λ f a. true)
      codec-HexLaws
      server
      (IsServed show remote turns)
      (task_node-Backs show remote turns server
        (λ i. (refl, (refl, (refl, tt))))
        (λ i. (reachable-Reaches, (reachable-Reaches, (reachable-Reaches, tt))))
        (λ i. omega arith))
      server-TellsOf
      done.database
      "owner"
      "program"
      in_base64
      10
      token
      (task_node show remote turns [])
unfolding verify_pubkey
take-AnswersWith_example =
    take-AnswersWith crates (Sqlite.indexer sqlite_table unary_keys) codec (exclude_keys ids)
      (subscriber config).filters TableSound (row_view unary_keys listed) sqlite_contract rpc chain
      (λ f a. true) codec-HexLaws server (IsServed show remote turns)
      (task_node-Backs show remote turns server (λ i. (refl, (refl, (refl, tt))))
        (λ i. (reachable-Reaches, (reachable-Reaches, (reachable-Reaches, tt)))) (λ i. omega arith))
      server-TellsOf (10 ∷ []) 10 token (record { mint = 20; owner = 30 }) told "owner" "program"
      in_base64 chain-Finds token-IsToken empty-TableSound account_10-Handles refl refl refl refl
      refl here (task_node show remote turns []) ([], tt, refl)
