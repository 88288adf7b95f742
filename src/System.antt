-- ===== src/System.antt =====
-- main.rs: the tasks of a started sidecar, and how they interleave: the event subscriber, the worker of
-- the accounts index behind its channel, and the methods, which read the index and ask the node.
pub mod Start
pub mod Mock
pub mod Orders
pub mod Searches
pub mod Answers
pub mod Samples
mod Tests
use noir_sidecar.Prelude.{
  ℕ, ◌≡◌, String, Bool, true, false, Option, List, [], ◌∷◌, ◌++◌, ◌==◌, if◌then◌else◌,
}
use noir_sidecar.Prelude.Result.{Result}
use noir_sidecar.Sdk.{Bytes, Pubkey}
use noir_sidecar.Client.Node.{Node, Outcome, returned, panicked}
use noir_sidecar.Client.Codec.{Codec}
use noir_sidecar.Event.{EventFilter, Turn, Subscription, round}
use noir_sidecar.Index.{Error, AccountIndex, Indexer}
use noir_sidecar.Index.Update.{TokenCrates, on_message}

-- The channel of the accounts index, among those of the subscriber's filters.
abbrev pub index_tx : ℕ
index_tx = 0

-- What has been sent into one channel.
abbrev pub sent_to : ℕ → List (ℕ × Bytes) → List Bytes
sent_to tx [] = []
sent_to tx ((c, bytes) ∷ sent) =
    let rest = sent_to tx sent in if c == tx then bytes ∷ rest else rest

-- `handled` are the messages that the worker has taken; it is `alive` until it panics, and then the
-- receiver of its channel is gone.
pub record System (S : Type 0) : Type 0 where
  pub subscription : Subscription
  pub handled : List Bytes
  pub alive : Bool
  pub database : S
  pub node : Node

abbrev pub survives : Outcome Error (Unit {0}) → Bool
survives (returned r) = true
survives panicked = false

-- The messages that wait in the channel of the index.
abbrev pub Waiting : {S : Type 0} → System S → List Bytes → Type 0
Waiting s ms = sent_to index_tx s.subscription.delivered ≡ s.handled ++ ms

module _ {S : Type 0} (crates : TokenCrates) (indexer : Indexer S) (codec : Codec)
    (exclude_keys : List Pubkey) where
  -- The worker takes one message.
  unfoldable pub take : Bytes → System S → System S
  take m s =
      let (o, n, t) = on_message crates indexer codec exclude_keys m s.node s.database in
      record s { handled = s.handled ++ m ∷ []; alive = survives o; database = t; node = n }

  module _ (filters : List EventFilter) where
    -- One step of the process: a round of the subscriber, a message for the worker, or anything that
    -- the methods and the network make of the node. No method changes the index.
    pub data Step (s : System S) : System S → Type 0 where
      listen :
          (t : Turn)
          → t.listens index_tx ≡ s.alive
          → Step s (record s { subscription = round filters t s.subscription })
      work : (m : Bytes) (ms : List Bytes) → s.alive ≡ true → Waiting s (m ∷ ms) → Step s (take m s)
      serve : (n : Node) → Step s (record s { node = n })

    pub data Reach (s : System S) : System S → Type 0 where
      here : Reach s s
      next : {t u : System S} → Reach s t → Step t u → Reach s u
