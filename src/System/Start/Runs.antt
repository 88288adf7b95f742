-- ===== src/System/Start/Runs.antt =====
-- main.rs: the tasks of a sidecar that has started.
use noir_sidecar.Prelude.{refl, []}
use noir_sidecar.Client.Codec.{Codec}
use noir_sidecar.Client.Node.{Node}
use noir_sidecar.Index.{Indexer}
use noir_sidecar.Index.Contract.{Implements, View}
use noir_sidecar.Index.Update.{TokenCrates}
use noir_sidecar.Rpc.Dispatch.{JsonRpc}
use noir_sidecar.System.{System, Reach}
use noir_sidecar.System.Orders.{IsConsistent, Reach-IsConsistent}
use noir_sidecar.System.Start.{Config, ProgramIds, Sidecar, initial}
use noir_sidecar.System.Start.Ready.{Ready}

module _ {M S : Type 0} (crates : TokenCrates) (codec : Codec) (sidecar : Sidecar M S) where
  -- The steps of the tasks that `main` joins, from the start.
  abbrev pub Runs : Node → System S → Type 0
  Runs n s =
      Reach crates sidecar.accounts_index.indexer codec sidecar.accounts_index.exclude_keys
        sidecar.event_subscriber.filters (initial sidecar n) s

module _ {M S : Type 0} (ids : ProgramIds) (json_rpc : JsonRpc M) (crates : TokenCrates)
    (codec : Codec) (config : Config) (IsValid : S → Type 0) (view : View S) (sidecar : Sidecar M S)
    (contract : Implements sidecar.accounts_index.indexer IsValid view) where
  -- Whatever order the tasks of a started sidecar run in: its index stays valid, its worker adds and
  -- removes nothing for an excluded program, and it takes the messages of its channel in the order in
  -- which the subscriber sent them, each once and none left out.
  pub Ready-IsConsistent :
      {index : Indexer S} (n : Node) {s : System S}
      → Ready ids json_rpc config index IsValid sidecar
      → Runs crates codec sidecar n s
      → IsConsistent crates sidecar.accounts_index.indexer codec sidecar.accounts_index.exclude_keys
          sidecar.event_subscriber.filters IsValid view contract
          (initial sidecar n)
          s
  Ready-IsConsistent n ready runs =
      Reach-IsConsistent crates sidecar.accounts_index.indexer codec
        sidecar.accounts_index.exclude_keys sidecar.event_subscriber.filters IsValid view contract
        (initial sidecar n)
        (record { valid = ready.valid; spared = λ x i k excluded. refl; in_order = ([], refl) })
        runs
