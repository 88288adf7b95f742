-- ===== src/System/Start/Exit.antt =====
-- main.rs: how the process ends.
use noir_sidecar.Prelude.{◌↔◌, arith, ◌≡◌, refl, String}
use noir_sidecar.Prelude.Result.{Result, ok, err}
use noir_sidecar.Client.Node.{Outcome, panicked, returned}
use noir_sidecar.Index.{KeyText}
use noir_sidecar.Index.Open.{Connections}
use noir_sidecar.Index.Sqlite.{SqliteEngine}
use noir_sidecar.Index.Postgres.{PostgresEngine}
use noir_sidecar.Rpc.Dispatch.{JsonRpc}
use noir_sidecar.Server.{CorsCrates}
use noir_sidecar.Server.Serving.{Network, run}
use noir_sidecar.System.Start.{
  Config, ConfigCrates, read_config, ProgramIds, Started, start, server_of, joined, after_start,
  with_config, main,
}

module _ {M Lite Pg Layer HeaderValue : Type 0} (ids : ProgramIds) (json_rpc : JsonRpc M)
    (connections : Connections Lite Pg) (lite : SqliteEngine Lite) (pg : PostgresEngine Pg)
    (keys : KeyText) (cors : CorsCrates Layer HeaderValue) (network : Network Layer)
    (crates : ConfigCrates) where
  -- A start that went through, whose server returned, with an error or without.
  pub record Ends (path : String) : Type 0 where
    pub config : Config
    pub started : Started M Lite Pg
    pub outcome : Result String (Unit {0})
    pub reads : read_config crates path ≡ ok config
    pub starts : start ids json_rpc connections lite pg keys config ≡ returned (ok started)
    pub serves : (run cors network (server_of started)).0 ≡ returned outcome

  joined-eq-ok :
      (o : Outcome String (Unit {0}))
      → joined ids json_rpc connections lite pg keys cors network o ≡ returned (ok tt)
      → (r : Result String (Unit {0})) × (o ≡ returned r)
  unfolding joined
  joined-eq-ok (returned r) h = (r, refl)
  joined-eq-ok panicked h = cc

  after_start-eq-ok :
      (o : Outcome String (Started M Lite Pg))
      → after_start ids json_rpc connections lite pg keys cors network o ≡ returned (ok tt)
      → (started : Started M Lite Pg) × (o ≡ returned (ok started))
        × ((r : Result String (Unit {0})) × ((run cors network (server_of started)).0 ≡ returned r))
  unfolding after_start
  after_start-eq-ok (returned (ok started)) h =
      (started, refl, joined-eq-ok (run cors network (server_of started)).0 h)
  after_start-eq-ok (returned (err e)) h = absurd (ground (arith, h))
  after_start-eq-ok panicked h = cc

  with_config-Ends :
      (path : String) (read : Result String Config)
      → read_config crates path ≡ read
      → with_config ids json_rpc connections lite pg keys cors network read ≡ returned (ok tt)
      → Ends path
  unfolding with_config
  with_config-Ends path (ok config) e h =
      let (started, starts, (outcome, serves)) =
        after_start-eq-ok (start ids json_rpc connections lite pg keys config) h in
      record {
        config = config;
        started = started;
        outcome = outcome;
        reads = e;
        starts = starts;
        serves = serves;
      }
  with_config-Ends path (err f) e h = absurd (ground (arith, h))

  Ends-main :
      (path : String)
      → Ends path
      → main ids json_rpc connections lite pg keys cors network crates path ≡ returned (ok tt)
  unfolding main with_config after_start joined
  Ends-main path h = rw (h.reads, h.starts, h.serves) refl

  -- `main` reports success exactly when the configuration is read, the sidecar starts, and the server
  -- returns without a panic; whether the server could listen or failed makes no difference.
  pub main-Ends :
      (path : String)
      → (main ids json_rpc connections lite pg keys cors network crates path ≡ returned (ok tt))
        ↔ Ends path
  unfolding main
  main-Ends path = (with_config-Ends path (read_config crates path) refl, Ends-main path)
