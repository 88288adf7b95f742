-- ===== src/Event.antt =====
-- event/mod.rs: the subscriber that hands the events of finalized blocks to the filters' channels.
pub mod Deliveries
mod Tests
use text.Mathlib.Text.{◌==◌ as str_eq}
use noir_sidecar.Prelude.{ℕ, String, Bool, true, false, ◌&&◌, List, [], ◌∷◌, ◌++◌, if◌then◌else◌}
use noir_sidecar.Prelude.Result.{Result, ok, err}
use noir_sidecar.Sdk.{Bytes}
use noir_sidecar.Client.{ClientConfig}

-- `tx` names the channel.
pub record EventFilter : Type 0 where
  pub pallet_name : String
  pub event_name : String
  pub tx : ℕ

-- What the loop reads of an event of `subxt`.
pub record Event : Type 0 where
  pub pallet_name : String
  pub variant_name : String
  pub field_bytes : Bytes

-- The events of a block, if they can be fetched; each of them may be undecodable.
abbrev pub Block : Type 0
Block = Result String (List (Result String Event))

-- One round: whether a connection can be made, the stream of blocks that a subscription gives until it
-- ends, and which channels still have their receiver.
pub record Turn : Type 0 where
  pub from_url : Bool
  pub subscribe : Result String (List (Result String Block))
  pub listens : ℕ → Bool

pub record EventSubscriber : Type 0 where
  pub endpoint : String
  pub filters : List EventFilter

-- The variables of the task, and what the channels have been sent, oldest first.
pub record Subscription : Type 0 where
  pub connected : Bool
  pub delivered : List (ℕ × Bytes)

abbrev pub new : ClientConfig → EventSubscriber
new config = record { endpoint = config.endpoint; filters = [] }

abbrev pub add_filter : EventFilter → EventSubscriber → EventSubscriber
add_filter filter subscriber = record subscriber { filters = subscriber.filters ++ filter ∷ [] }

abbrev pub accepts : EventFilter → Event → Bool
accepts filter event =
    str_eq event.pallet_name filter.pallet_name && str_eq event.variant_name filter.event_name

module _ (filters : List EventFilter) where
  module _ (listens : ℕ → Bool) where
    -- A send to a channel without receiver is logged and forgotten.
    send_to : EventFilter → Event → List (ℕ × Bytes) → List (ℕ × Bytes)
    send_to filter event sent =
        if accepts filter event
        then (if listens filter.tx then sent ++ (filter.tx, event.field_bytes) ∷ [] else sent)
        else sent

    dispatch : List EventFilter → Event → List (ℕ × Bytes) → List (ℕ × Bytes)
    unfolding send_to
    dispatch [] event sent = sent
    dispatch (f ∷ fs) event sent = dispatch fs event (send_to f event sent)

    on_events : List (Result String Event) → List (ℕ × Bytes) → List (ℕ × Bytes)
    on_events [] sent = sent
    on_events (ok event ∷ events) sent = on_events events (dispatch filters event sent)
    on_events (err e ∷ events) sent = on_events events sent

    -- The stream ends at the first block that is an error; a block without events is passed over.
    on_blocks : List (Result String Block) → List (ℕ × Bytes) → List (ℕ × Bytes)
    unfolding on_events
    on_blocks [] sent = sent
    on_blocks (err e ∷ blocks) sent = sent
    on_blocks (ok (err e) ∷ blocks) sent = on_blocks blocks sent
    on_blocks (ok (ok events) ∷ blocks) sent = on_blocks blocks (on_events events sent)

  subscribed : Turn → Result String (List (Result String Block)) → Subscription → Subscription
  unfolding on_blocks
  subscribed t (err e) s = record s { connected = false }
  subscribed t (ok blocks) s = record s { delivered = on_blocks t.listens blocks s.delivered }

  unfoldable pub round : Turn → Subscription → Subscription
  unfolding subscribed on_blocks on_events dispatch send_to
  round t s =
      if s.connected then subscribed t t.subscribe s else record s { connected = t.from_url }

  pub run : List Turn → Subscription → Subscription
  unfolding round
  run [] s = s
  run (t ∷ ts) s = run ts (round t s)
