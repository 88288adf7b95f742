-- ===== src/Client/Served.antt =====
-- client/mod.rs: the node as the callers of `Client::request` see it, when the connection task of
-- `Client::run` stands behind the channel.
pub mod Reached
mod Tests
use noir_sidecar.Prelude.{
  ℕ, String, Option, none, some, List, [], ◌∷◌, ◌++◌, length, ◌==◌, if◌then◌else◌,
}
use noir_sidecar.Client.{Response, Request, Message, request, ClientConfig, ArrayParams}
use noir_sidecar.Client.Node.{Node, Delivery, unsent, dropped, answered}
use noir_sidecar.Client.Loop.{Turn, Status, running, stopped, panicked, Task, start, run}

-- `self.tx.send(..)`.
abbrev pub enqueue : Request → Task → Task
enqueue r s = record s { queue = s.queue ++ request r ∷ [] }

-- What the receiver of a oneshot channel finds in it.
abbrev pub answer_of : {A : Type 0} → ℕ → List (ℕ × A) → Option A
answer_of id [] = none
answer_of id ((i, response) ∷ answers) =
    let rest = answer_of id answers in if id == i then some response else rest

-- A channel without an answer is one whose request was lost with the task.
abbrev pub received : Option Response → Delivery
received (some response) = answered response
received none = dropped "RecvError"

-- `turns i` are the rounds that the task makes between the request `i` and its answer; requests are
-- numbered from 0, and a history has its newest request first.
module _ (debug_params : ArrayParams → String) (config : ClientConfig) (turns : ℕ → List Turn) where
  -- The task after a history of requests.
  unfoldable pub task_after : List Request → Task
  task_after [] = start config []
  task_after (r ∷ sent) =
      let s = task_after sent in run debug_params (turns (length sent)) (enqueue r s)

  -- A task that has ended has closed the channel.
  deliver_to : Status → Request → List Request → Delivery
  deliver_to running r sent = received (answer_of r.response (task_after (r ∷ sent)).answers)
  deliver_to stopped r sent = unsent "SendError"
  deliver_to panicked r sent = unsent "SendError"

  unfoldable pub task_node : List Request → Node
  unfolding deliver_to
  task_node sent = record {
    deliver = λ before r. deliver_to (task_after before).status r before;
    sent = sent;
  }
