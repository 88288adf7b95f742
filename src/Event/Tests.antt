-- ===== src/Event/Tests.antt =====
-- event/mod.rs: a subscriber with two filters, through a lost connection.
use noir_sidecar.Prelude.{◌≡◌, true, false, List, [], ◌∷◌}
use noir_sidecar.Prelude.Result.{ok, err}
use noir_sidecar.Event.{EventFilter, Event, Turn, Subscription, run}
use noir_sidecar.Event.Deliveries.{run-expected}

abbrev filters : List EventFilter
filters =
    record { pallet_name = "Solana"; event_name = "AccountChanged"; tx = 1 }
    ∷ record { pallet_name = "Solana"; event_name = "Slot"; tx = 2 }
    ∷ []

abbrev changed : Event
changed = record { pallet_name = "Solana"; variant_name = "AccountChanged"; field_bytes = 7 ∷ [] }

abbrev up : Turn
up = record {
  from_url = true;
  subscribe = ok (ok (err "no events") ∷ ok (ok (ok changed ∷ err "undecodable" ∷ [])) ∷ []);
  listens = λ channel. true;
}

abbrev down : Turn
down = record { from_url = true; subscribe = err "closed"; listens = λ channel. true }

abbrev fresh : Subscription
fresh = record { connected = false; delivered = [] }

run-expected_example :
    (run filters (up ∷ up ∷ down ∷ up ∷ up ∷ []) fresh).delivered ≡ (1, 7 ∷ []) ∷ (1, 7 ∷ []) ∷ []
run-expected_example = run-expected filters (up ∷ up ∷ down ∷ up ∷ up ∷ []) fresh
