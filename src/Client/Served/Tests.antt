-- ===== src/Client/Served/Tests.antt =====
-- client/mod.rs: a task behind a node.
use noir_sidecar.Prelude.{ℕ, ◌≡◌, refl, String, true, none, List, [], ◌∷◌, arith}
use noir_sidecar.Prelude.Result.{ok}
use noir_sidecar.Client.{ClientConfig, ArrayParams, Request}
use noir_sidecar.Client.Node.{returned}
use noir_sidecar.Client.Calls
use noir_sidecar.Client.Loop.{Turn, unavailable}
use noir_sidecar.Client.Served.{task_node}
use noir_sidecar.Client.Served.Reached.{Server, Reaches, request-Reaches}

abbrev local : ClientConfig
local = record {
  endpoint = "ws://127.0.0.1:9944";
  request_timeout_seconds = none;
  connection_timeout_seconds = none;
  max_concurrent_requests = none;
  max_response_size = none;
}

abbrev show : ArrayParams → String
show params = "[]"

-- A server that repeats the name of the method.
abbrev echo : Server
echo method params = ok method

abbrev up : Turn
up = record {
  ctrl_c = unavailable;
  build = λ options. ok 7;
  is_connected = λ c. true;
  reply = λ c method params. ok method;
  listens = λ id. true;
}

up-Reaches : Reaches echo up
up-Reaches = record {
  listens = λ id. refl;
  builds = λ options. (7, refl);
  connected = λ c. refl;
  replies = λ c method params. refl;
}

abbrev turns : ℕ → List Turn
turns i = up ∷ up ∷ up ∷ up ∷ []

abbrev before : List Request
before = Calls.new_request "chain_getHeader" [] [] ∷ []

request-Reaches_example :
    Calls.request (λ v. ok v) "chain_getBlockHash" [] (task_node show local turns before) ≡ (
      returned (ok "chain_getBlockHash"),
      task_node show local turns (Calls.new_request "chain_getBlockHash" [] before ∷ before),
    )
request-Reaches_example =
    request-Reaches show echo local turns (λ i. (refl, (refl, (refl, (refl, tt)))))
      (λ i. (up-Reaches, (up-Reaches, (up-Reaches, (up-Reaches, tt))))) (λ i. omega arith)
      (λ v. ok v) "chain_getBlockHash" [] before (refl, tt)
