-- ===== src/System/Mock.antt =====
-- main.rs with the feature mock: the task of the virtual machine, the server, and the signals that end
-- them.
pub mod Undisturbed
pub mod Asked
pub mod Exits
mod Tests
use noir_sidecar.Prelude.{
  ℕ, suc, String, Bool, true, false, not, ◌&&◌, ◌||◌, none, some, List, [], ◌∷◌, ◌++◌,
  if◌then◌else◌,
}
use noir_sidecar.Prelude.Result.{Result, ok, err}
use noir_sidecar.Sdk.{Bytes}
use noir_sidecar.Client.Node.{Outcome, returned, panicked}
use noir_sidecar.Rpc.Dispatch.{JsonRpc}
use noir_sidecar.Rpc.Dispatch
use noir_sidecar.Rpc.Mock.Svm.{SvmRequest, SvmTask, Vm, Formats, turn}
use noir_sidecar.Server.Serving.{ServerConfig}

-- The names that the methods of the mock node send to the machine.
pub data SvmMethod : Type 0 where
  get_account get_accounts request_airdrop get_balance send_transaction get_transactions : SvmMethod
  latest_blockhash : SvmMethod

abbrev pub name_of : SvmMethod → String
name_of get_account = "getAccount"
name_of get_accounts = "getAccounts"
name_of request_airdrop = "requestAirdrop"
name_of get_balance = "getBalance"
name_of send_transaction = "sendTransaction"
name_of get_transactions = "getTransactions"
name_of latest_blockhash = "latestBlockhash"

-- What the spawned task sends at Ctrl-C.
abbrev pub terminate_svm : SvmRequest
terminate_svm = record { method = "terminateSvm"; params = []; response = none }

-- `serving` until the server has returned, `stopping` from the signal on that makes it shut down;
-- `listens` while the spawned task waits for Ctrl-C and holds its sender.
pub record MockProcess (V : Type 0) : Type 0 where
  pub svm : SvmTask V
  pub serving : Bool
  pub stopping : Bool
  pub listens : Bool

-- A request of a method, whose answer goes to a oneshot channel; a turn of the machine's task; the two
-- signals; and the return of the server, when the calls in flight have been answered.
pub data MockStep : Type 0 where
  call : SvmMethod → Bytes → ℕ → MockStep
  svm_turn : MockStep
  sigterm : MockStep
  ctrl_c : MockStep
  server_returns : MockStep

-- `shutdown_signal` waits for either signal.
abbrev pub shutdown_signal : MockStep → Bool
shutdown_signal sigterm = true
shutdown_signal ctrl_c = true
shutdown_signal _ = false

-- `svm_tx.send(..)`: a task that has ended has closed its channel.
abbrev pub send_svm : {V : Type 0} → SvmRequest → SvmTask V → SvmTask V
send_svm r s = if s.running then record s { queue = s.queue ++ r ∷ [] } else s

-- The process as its tasks start, with the machine of `litesvm::LiteSVM::new()`.
abbrev pub new_process : {V : Type 0} → V → MockProcess V
new_process svm = record {
  svm = record { svm = svm; queue = []; answers = []; running = true };
  serving = true;
  stopping = false;
  listens = true;
}

module _ {M : Type 0} (json_rpc : JsonRpc M) where
  -- `JsonRpcModule::create` over the mock node: the same methods are registered.
  abbrev pub create_mock : Result String M
  create_mock = Dispatch.create json_rpc

-- The part of `main` with the feature mock, up to its tasks; the module is made with `.expect(..)`.
module _ {M V : Type 0} (json_rpc : JsonRpc M) where
  with_mock_module : ServerConfig → V → Result String M → Outcome String (M × MockProcess V)
  with_mock_module config svm (ok module') = returned (ok (module', new_process svm))
  with_mock_module config svm (err e) = panicked

  unfoldable pub start_mock : ServerConfig → V → Outcome String (M × MockProcess V)
  unfolding with_mock_module
  start_mock config svm = with_mock_module config svm (create_mock json_rpc)

module _ {V : Type 0} (vm : Vm V) (formats : Formats) where
  -- The methods send until the server has returned. Either signal makes it shut down; Ctrl-C also
  -- wakes the spawned task, once.
  unfoldable pub step : MockStep → MockProcess V → MockProcess V
  step (call method params id) p =
      if p.serving
      then record p {
        svm =
            send_svm (record { method = name_of method; params = params; response = some id })
              p.svm;
      }
      else p
  step svm_turn p = record p { svm = turn vm formats p.svm }
  step sigterm p = record p { stopping = shutdown_signal sigterm || p.stopping }
  step ctrl_c p = record p {
    svm = if p.listens then send_svm terminate_svm p.svm else p.svm;
    stopping = true;
    listens = false;
  }
  step server_returns p = if p.stopping then record p { serving = false } else p

  unfoldable pub steps : List MockStep → MockProcess V → MockProcess V
  steps [] p = p
  steps (e ∷ es) p = steps es (step e p)

-- `main` returns with the server, and the runtime of tokio then waits for the blocking task of the
-- machine.
abbrev pub exits : {V : Type 0} → MockProcess V → Bool
exits p = not p.serving && not p.svm.running
