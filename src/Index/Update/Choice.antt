-- ===== src/Index/Update/Choice.antt =====
-- db/index/mod.rs, `AccountsIndex::run`: SQLite or PostgreSQL.
use mathlib.Core.Path.{fun_ext}
use noir_sidecar.Prelude.{◌≡◌, Bool, List}
use noir_sidecar.Sdk.{Bytes, Pubkey}
use noir_sidecar.Client.Codec.{Codec}
use noir_sidecar.Client.Node.{Node}
use noir_sidecar.Index.{AccountIndex, KeyText, KeyTextLaws, Row, row_of}
use noir_sidecar.Index.Contract.{IsKeyed, row_view}
use noir_sidecar.Index.Sqlite
use noir_sidecar.Index.Sqlite.{SqliteEngine}
use noir_sidecar.Index.Sqlite.Refines.{SqliteLaws, IsSound as Sound, sqlite-Implements}
use noir_sidecar.Index.Postgres
use noir_sidecar.Index.Postgres.{PostgresEngine}
use noir_sidecar.Index.Postgres.Refines.{PostgresLaws, IsSound as PgSound, postgres-Implements}
use noir_sidecar.Index.Update.{TokenCrates, run}
use noir_sidecar.Index.Update.Backends.{FindAlike, Agree-FindAlike, run-RunAlike}

module _ {Lite Pg : Type 0} (crates : TokenCrates) (codec : Codec) (exclude_keys : List Pubkey)
    (keys : KeyText) (texts : KeyTextLaws keys) (lite : SqliteEngine Lite)
    (LiteReady : Lite → Type 0) (lite_rows : Lite → Row → Bool)
    (lite_laws : SqliteLaws lite LiteReady lite_rows) (pg : PostgresEngine Pg)
    (PgReady : Pg → Type 0) (pg_rows : Pg → Row → Bool)
    (pg_laws : PostgresLaws pg PgReady pg_rows) where
  -- The worker's run over each of the two databases, and its answers to the same search.
  abbrev pub Same : Node × Lite → Node × Pg → Type 0
  Same x y =
      (x.0 ≡ y.0)
      × ((i : AccountIndex) (k : Pubkey) (sort_results : Bool)
          → FindAlike crates codec exclude_keys (Sqlite.indexer lite keys)
              (Sound lite keys LiteReady lite_rows texts lite_laws) (row_view keys lite_rows)
              (sqlite-Implements lite keys LiteReady lite_rows texts lite_laws)
              (Postgres.indexer pg keys) (PgSound pg keys PgReady pg_rows texts pg_laws)
              (row_view keys pg_rows) (postgres-Implements pg keys PgReady pg_rows texts pg_laws)
              x.1 y.1 i k sort_results)

  -- From two databases in ready states (connections are given and the tables have been created) with
  -- the same rows, all of keys, the worker does the same over SQLite and over
  -- PostgreSQL, whatever messages arrive and whatever the node answers: it leaves the same node, and
  -- afterwards every search answers on both, with lists that hold the same keys.
  pub run-Same :
      (ms : List Bytes) (n : Node) (s : Lite) (t : Pg)
      → LiteReady s
      → IsKeyed keys lite_rows s
      → PgReady t
      → IsKeyed keys pg_rows t
      → ((r : Row) → lite_rows s r ≡ pg_rows t r)
      → Same
          (run crates (Sqlite.indexer lite keys) codec exclude_keys ms n s)
          (run crates (Postgres.indexer pg keys) codec exclude_keys ms n t)
  run-Same ms n s t ready keyed ready' keyed' same =
      let alike =
        run-RunAlike crates codec exclude_keys (Sqlite.indexer lite keys)
          (Sound lite keys LiteReady lite_rows texts lite_laws) (row_view keys lite_rows)
          (sqlite-Implements lite keys LiteReady lite_rows texts lite_laws)
          (Postgres.indexer pg keys) (PgSound pg keys PgReady pg_rows texts pg_laws)
          (row_view keys pg_rows) (postgres-Implements pg keys PgReady pg_rows texts pg_laws) ms n s
          t
          (record {
            valid = (ready, keyed);
            valid' = (ready', keyed');
            entries = fun_ext λ i. fun_ext λ k. fun_ext λ x. same (row_of keys i k x);
          }) in
      (
        alike.node,
        λ i k sort_results.
            Agree-FindAlike crates codec exclude_keys (Sqlite.indexer lite keys)
              (Sound lite keys LiteReady lite_rows texts lite_laws) (row_view keys lite_rows)
              (sqlite-Implements lite keys LiteReady lite_rows texts lite_laws)
              (Postgres.indexer pg keys) (PgSound pg keys PgReady pg_rows texts pg_laws)
              (row_view keys pg_rows) (postgres-Implements pg keys PgReady pg_rows texts pg_laws) _
              _ i k sort_results alike.agree,
      )
