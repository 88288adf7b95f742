-- ===== src/System/Tests.antt =====
-- main.rs: a sidecar over a list of rows, its tasks, and its start.
use noir_sidecar.Prelude.{strip_prefix, inl, refl, true, none, some, [], ◌∷◌}
use noir_sidecar.Prelude.Result.{ok}
use noir_sidecar.Client.Calls.{state_call}
use noir_sidecar.Client.Samples.{encode, decode}
use noir_sidecar.Index.{get_index_name}
use noir_sidecar.Client.Solana.{get_accounts, runtime_call}
use noir_sidecar.Event.{Event, Turn, round}
use noir_sidecar.Index.Contract.{row_view}
use noir_sidecar.Index.Samples.{unary_keys, Table, listed, sqlite_table}
use noir_sidecar.Index.Sqlite
use noir_sidecar.Index.Update.Found.{IsToken}
use noir_sidecar.Index.Update.{index_accounts, update_index, on_message}
use noir_sidecar.Index.Update.Samples.{crates, token, TableSound, sqlite_contract, empty-TableSound}
use noir_sidecar.Rpc.Dispatch
use noir_sidecar.Rpc.Dispatch.{JsonRpc, SolanaMethod, registered}
use noir_sidecar.Rpc.Samples.{sample}
use noir_sidecar.System.{System, take, listen, work, here, next}
use noir_sidecar.System.Samples.{codec, node, ids, json_rpc, config, sidecar}
use noir_sidecar.System.Orders.{IsConsistent}
use noir_sidecar.System.Searches.{Handles, AsksByOwner, AsksByMint, take-Asks}
use noir_sidecar.System.Start.{exclude_keys, subscriber, initial}
use noir_sidecar.System.Start.Ready.{Ready}
use noir_sidecar.System.Start.Runs.{Runs, Ready-IsConsistent}

abbrev loaded : Event
loaded = record { pallet_name = "Solana"; variant_name = "LoadedAccounts"; field_bytes = 10 ∷ [] }

abbrev up : Turn
up = record {
  from_url = true;
  subscribe = ok (ok (ok (ok loaded ∷ [])) ∷ []);
  listens = λ channel. true;
}

abbrev fresh : System Table
fresh = initial sidecar node

sidecar-Ready :
    Ready ids json_rpc config (Sqlite.indexer sqlite_table unary_keys) TableSound sidecar
unfolding Dispatch.create
sidecar-Ready = record {
  indexer = refl;
  excludes = refl;
  listens_at = refl;
  listens_for = (0, refl, refl);
  answers = refl;
  server = refl;
  valid = empty-TableSound;
}

-- The subscriber connects and listens, and the message waits.
abbrev told : System Table
told = record fresh { subscription = record { connected = true; delivered = (0, 10 ∷ []) ∷ [] } }

told-Runs : Runs crates codec sidecar node told
unfolding round
told-Runs = next (next here (listen up refl)) (listen up refl)

-- The worker takes it.
abbrev done : System Table
done = take crates (Sqlite.indexer sqlite_table unary_keys) codec (exclude_keys ids) (10 ∷ []) told

done-Runs : Runs crates codec sidecar node done
done-Runs = next told-Runs (work (10 ∷ []) [] refl refl)

Ready-IsConsistent_example :
    IsConsistent crates
      (Sqlite.indexer sqlite_table unary_keys)
      codec
      (exclude_keys ids)
      (subscriber config).filters
      TableSound
      (row_view unary_keys listed)
      sqlite_contract
      (initial sidecar node)
      done
Ready-IsConsistent_example =
    Ready-IsConsistent ids json_rpc crates codec config TableSound (row_view unary_keys listed)
      sidecar sqlite_contract node sidecar-Ready done-Runs

token-IsToken : IsToken crates token (record { mint = 20; owner = 30 })
token-IsToken = record { known = refl; unpacks = refl }

account_10-Handles :
    Handles crates
      (Sqlite.indexer sqlite_table unary_keys)
      codec
      (exclude_keys ids)
      (subscriber config).filters
      TableSound
      (row_view unary_keys listed)
      sqlite_contract
      sample
      (10 ∷ [])
      10
      token
      told
unfolding get_accounts on_message update_index index_accounts take runtime_call state_call
    strip_prefix Sqlite.insert_index get_index_name encode decode
account_10-Handles = record {
  pubkeys = 10 ∷ [];
  answered = (10, some token) ∷ [];
  after = (get_accounts codec (10 ∷ []) none node).1;
  index = done.database;
  decoded = refl;
  fetched = refl;
  occurs = inl refl;
  indexes = refl;
}

take-Asks_example :
    AsksByOwner crates
      (Sqlite.indexer sqlite_table unary_keys)
      codec
      (exclude_keys ids)
      (subscriber config).filters
      TableSound
      (row_view unary_keys listed)
      sqlite_contract
      sample
      done.database
      30
      10
    × AsksByMint crates
        (Sqlite.indexer sqlite_table unary_keys)
        codec
        (exclude_keys ids)
        (subscriber config).filters
        TableSound
        (row_view unary_keys listed)
        sqlite_contract
        sample
        done.database
        20
        10
take-Asks_example =
    take-Asks crates (Sqlite.indexer sqlite_table unary_keys) codec (exclude_keys ids)
      (subscriber config).filters TableSound (row_view unary_keys listed) sqlite_contract sample
      (10 ∷ []) 10 token (record { mint = 20; owner = 30 }) told token-IsToken empty-TableSound
      account_10-Handles here
