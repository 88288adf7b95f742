-- ===== src/Rpc/Views/Served.antt =====
-- rpc/solana/mod.rs over client/mod.rs: the methods with the connection task of the client behind
-- them, and one server behind the connection.
use noir_sidecar.Prelude.{ℕ, ◌≡◌, ◌≤◌, refl, ap, sym, subst, String, List, ◌∷◌, length, All}
use noir_sidecar.Prelude.Result.{map_err}
use noir_sidecar.Client.{client_error, ClientConfig, ArrayParams, Request}
use noir_sidecar.Client.Node.{Node, answered}
use noir_sidecar.Client.Codec.{Codec}
use noir_sidecar.Client.Calls.{new_request}
use noir_sidecar.Client.Loop.{Turn}
use noir_sidecar.Client.Loop.Answers.{HandlerFails}
use noir_sidecar.Client.Served.{task_node}
use noir_sidecar.Client.Served.Reached.{Server, Reaches, delivers}
use noir_sidecar.Client.Views.{Backs}
use noir_sidecar.Rpc.Crates.{Crates}
use noir_sidecar.Rpc.Views.Methods.{Views}

module _ (debug_params : ArrayParams → String) (config : ClientConfig) (turns : ℕ → List Turn) where
  -- The connection task behind the channel, after some calls of `Client::request`.
  abbrev pub IsServed : Node → Type 0
  IsServed n =
      (sent : List Request) × All (λ r. r.retry ≡ 3) sent
      × (n ≡ task_node debug_params config turns sent)

  module _ (server : Server) (fails : (i : ℕ) → All HandlerFails (turns i))
      (reached : (i : ℕ) → All (Reaches server) (turns i))
      (enough : (i : ℕ) → 3 ≤ length (turns i)) where
    pub task_node-Backs : Backs server IsServed
    unfolding task_node
    task_node-Backs = record {
      delivers = λ method params n (sent, retries, e).
          subst
            (λ m.
              m.deliver m.sent (new_request method params m.sent)
              ≡ answered (map_err client_error (server method params)))
            (sym e)
            (delivers debug_params server config turns fails reached enough
              (new_request method params sent) sent retries refl);
      stays = λ method params n (sent, retries, e). (
        new_request method params sent ∷ sent,
        (refl, retries),
        ap {A = Node} {B = Node}
            (λ m. record m { sent = new_request method params m.sent ∷ m.sent }) e,
      );
    }
