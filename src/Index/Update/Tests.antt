-- ===== src/Index/Update/Tests.antt =====
-- db/index: the index on a list of rows.
use noir_sidecar.Prelude.{◌≡◌, refl, true, false, some, [], ◌∷◌}
use noir_sidecar.Prelude.Result.{ok, err}
use noir_sidecar.Client.Samples.{plain, constant_node, encode}
use noir_sidecar.Index.{Error, program_id, get_index_name, row_of}
use noir_sidecar.Index.Contract.{Implements, IsKeyed, row_view, Keyed-insert}
use noir_sidecar.Index.Samples.{
  unary_keys, unary-KeyTextLaws, Table, TableReady, listed, sqlite_table, postgres_table,
  sqlite_table-SqliteLaws, postgres_table-PostgresLaws, sqlite_database, sqlite_database-SqliteLaws,
  HasTable, rows_of,
}
use noir_sidecar.Index.Sqlite
use noir_sidecar.Index.Sqlite.Refines.{sqlite-Implements}
use noir_sidecar.Index.Postgres
use noir_sidecar.Index.Postgres.Refines.{postgres-Implements}
use noir_sidecar.Index.Sqlite.Creates.{IsFresh}
use noir_sidecar.Index.Tested.{test_get_indexed_keys, sqlite_test_passes}
use noir_sidecar.Index.Update.{index_accounts, run}
use noir_sidecar.Index.Update.Samples.{
  TableSound, sqlite_contract, crates, token, empty-IsKeyed, empty-TableSound,
}
use noir_sidecar.Index.Update.Entries.{entries_of}
use noir_sidecar.Index.Update.Insertion.{Leaves, index_accounts-Leaves, index_accounts-known}
use noir_sidecar.Index.Update.Choice.{Same, run-Same}
use noir_sidecar.Client.Codec.{Codec}
use noir_sidecar.Index.Update.Excluded.{Spares, run-Spares}

sqlite-Implements_example :
    Implements
      (Sqlite.indexer sqlite_database unary_keys)
      (λ db. HasTable db × IsKeyed unary_keys rows_of db)
      (row_view unary_keys rows_of)
sqlite-Implements_example =
    sqlite-Implements sqlite_database unary_keys HasTable rows_of unary-KeyTextLaws
      sqlite_database-SqliteLaws

postgres-Implements_example :
    Implements (Postgres.indexer postgres_table unary_keys) TableSound (row_view unary_keys listed)
postgres-Implements_example =
    postgres-Implements postgres_table unary_keys TableReady listed unary-KeyTextLaws
      postgres_table-PostgresLaws

-- The program entry of account 10.
abbrev one_row : Table
one_row = row_of unary_keys program_id 6 10 ∷ []

one_row-IsSound : TableSound one_row
one_row-IsSound = (tt, λ r h. Keyed-insert unary_keys listed program_id 6 10 r [] empty-IsKeyed h)

index_accounts-Leaves_example :
    Leaves crates
      (Sqlite.indexer sqlite_table unary_keys)
      TableSound
      (row_view unary_keys listed)
      sqlite_contract
      (entries_of crates ((10, token) ∷ []))
      (row_view unary_keys listed [])
      (index_accounts crates (Sqlite.indexer sqlite_table unary_keys) ((10, token) ∷ []) [])
index_accounts-Leaves_example =
    index_accounts-Leaves crates (Sqlite.indexer sqlite_table unary_keys) TableSound
      (row_view unary_keys listed) sqlite_contract ((10, token) ∷ []) [] empty-TableSound

index_accounts-known_example :
    (e : Error) × (index_accounts crates
        (Sqlite.indexer sqlite_table unary_keys)
        ((10, token) ∷ (11, token) ∷ [])
        one_row
      ≡ (err e, one_row))
unfolding get_index_name encode
index_accounts-known_example =
    index_accounts-known crates (Sqlite.indexer sqlite_table unary_keys) TableSound
      (row_view unary_keys listed) sqlite_contract 10 token (record { mint = 20; owner = 30 })
      ((11, token) ∷ []) one_row one_row-IsSound refl refl refl

run-Spares_example :
    Spares crates
      (Sqlite.indexer sqlite_table unary_keys)
      plain
      TableSound
      (row_view unary_keys listed)
      sqlite_contract
      10
      []
      (run crates
        (Sqlite.indexer sqlite_table unary_keys)
        plain
        (10 ∷ [])
        ((10 ∷ []) ∷ [])
        (constant_node "")
        []).1
run-Spares_example =
    run-Spares crates (Sqlite.indexer sqlite_table unary_keys) plain TableSound
      (row_view unary_keys listed) sqlite_contract 10 (10 ∷ []) refl ((10 ∷ []) ∷ [])
      (constant_node "") [] empty-TableSound

-- A node with the one token account.
abbrev holding : Codec
holding = record plain { deserialize_accounts = λ bytes. ok (some token ∷ []) }

run-Same_example :
    Same crates holding [] unary_keys unary-KeyTextLaws sqlite_table TableReady listed
      sqlite_table-SqliteLaws postgres_table TableReady listed postgres_table-PostgresLaws
      (run crates
        (Sqlite.indexer sqlite_table unary_keys)
        holding
        []
        ((10 ∷ []) ∷ [])
        (constant_node "0x")
        [])
      (run crates
        (Postgres.indexer postgres_table unary_keys)
        holding
        []
        ((10 ∷ []) ∷ [])
        (constant_node "0x")
        [])
run-Same_example =
    run-Same crates holding [] unary_keys unary-KeyTextLaws sqlite_table TableReady listed
      sqlite_table-SqliteLaws postgres_table TableReady listed postgres_table-PostgresLaws
      ((10 ∷ []) ∷ []) (constant_node "0x") [] [] tt empty-IsKeyed tt empty-IsKeyed (λ r. refl)

no_table : IsFresh sqlite_database HasTable rows_of (false, [])
no_table = record {
  unlocked = refl;
  prepares = refl;
  absent = refl;
  creates = ((true, []), refl, refl, λ r. refl);
}

sqlite_test_passes_example :
    test_get_indexed_keys (Sqlite.indexer sqlite_database unary_keys) 3 4 (false, []) ≡ true
sqlite_test_passes_example =
    sqlite_test_passes sqlite_database unary_keys HasTable rows_of unary-KeyTextLaws
      sqlite_database-SqliteLaws 3 4 (false, []) no_table
