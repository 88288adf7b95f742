-- ===== src/Event/Deliveries.antt =====
-- event/mod.rs, `EventSubscriber::run`: what the channels are sent.
use mathlib.Core.List.{append-nil, append_assoc}
use mathlib.Core.Path.{ap₂}
use noir_sidecar.Prelude.{
  ℕ, ◌≡◌, refl, sym, ap, ◌∙◌, String, Bool, true, false, ◌&&◌, List, [], ◌∷◌, ◌++◌, map, filter,
  inl, inr, Bool-cases,
}
use noir_sidecar.Prelude.Result.{Result, ok, err}
use noir_sidecar.Sdk.{Bytes}
use noir_sidecar.Event.{
  EventFilter, Event, Block, Turn, Subscription, accepts, send_to, dispatch, on_events, on_blocks,
  subscribed, round, run,
}

abbrev concat_map : {A B : Type 0} → (A → List B) → List A → List B
concat_map f [] = []
concat_map f (x ∷ xs) = f x ++ concat_map f xs

concat_map-append :
    {A B : Type 0} (f : A → List B) (xs ys : List A)
    → concat_map f (xs ++ ys) ≡ concat_map f xs ++ concat_map f ys
concat_map-append f [] ys = refl
concat_map-append f (x ∷ xs) ys =
    ap (λ zs. f x ++ zs) (concat_map-append f xs ys)
    ∙ sym (append_assoc (f x) (concat_map f xs) (concat_map f ys))

-- The events that a list of results holds.
abbrev decoded : List (Result String Event) → List Event
decoded [] = []
decoded (ok event ∷ events) = event ∷ decoded events
decoded (err e ∷ events) = decoded events

-- The events of a stream: those of its blocks up to the first that is an error.
abbrev streamed : List (Result String Block) → List Event
streamed [] = []
streamed (err e ∷ blocks) = []
streamed (ok (err e) ∷ blocks) = streamed blocks
streamed (ok (ok events) ∷ blocks) = decoded events ++ streamed blocks

module _ (filters : List EventFilter) where
  -- The messages that one event causes: one for each filter that accepts it and is listened to.
  abbrev messages : (ℕ → Bool) → Event → List (ℕ × Bytes)
  messages listens event =
      map (λ f. (f.tx, event.field_bytes)) (filter (λ f. accepts f event && listens f.tx) filters)

  -- What one round adds, by what its subscription gives, and whether the next one is connected.
  abbrev caused : Turn → Bool → Result String (List (Result String Block)) → List (ℕ × Bytes)
  caused t false r = []
  caused t true (err e) = []
  caused t true (ok blocks) = concat_map (messages t.listens) (streamed blocks)

  abbrev connected_after : Turn → Bool → Result String (List (Result String Block)) → Bool
  connected_after t false r = t.from_url
  connected_after t true (err e) = false
  connected_after t true (ok blocks) = true

  -- The messages of several rounds, by whether the first one finds a connection.
  abbrev pub expected : Bool → List Turn → List (ℕ × Bytes)
  expected connected [] = []
  expected connected (t ∷ ts) =
      caused t connected t.subscribe ++ expected (connected_after t connected t.subscribe) ts

  dispatch-messages :
      (listens : ℕ → Bool) (fs : List EventFilter) (event : Event) (sent : List (ℕ × Bytes))
      → dispatch filters listens fs event sent
        ≡ sent
          ++ map (λ f. (f.tx, event.field_bytes)) (filter (λ f. accepts f event && listens f.tx) fs)
  unfolding dispatch send_to
  dispatch-messages listens [] event sent = sym (append-nil sent)
  dispatch-messages listens (f ∷ fs) event sent = elim (Bool-cases (accepts f event)) [
    | inr other ↦ rw (other, dispatch-messages listens fs event sent) refl
    | inl wanted ↦ elim (Bool-cases (listens f.tx)) [
      | inr gone ↦ rw (wanted, gone, dispatch-messages listens fs event sent) refl
      | inl here ↦
          rw
            (
              wanted,
              here,
              dispatch-messages listens fs event (sent ++ (f.tx, event.field_bytes) ∷ []),
            )
            (append_assoc sent _ _)
    ]
  ]

  on_events-decoded :
      (listens : ℕ → Bool) (events : List (Result String Event)) (sent : List (ℕ × Bytes))
      → on_events filters listens events sent
        ≡ sent ++ concat_map (messages listens) (decoded events)
  unfolding on_events
  on_events-decoded listens [] sent = sym (append-nil sent)
  on_events-decoded listens (err e ∷ events) sent = on_events-decoded listens events sent
  on_events-decoded listens (ok event ∷ events) sent =
      on_events-decoded listens events (dispatch filters listens filters event sent)
      ∙ ap (λ xs. xs ++ concat_map (messages listens) (decoded events))
          (dispatch-messages listens filters event sent)
      ∙ append_assoc sent _ _

  on_blocks-streamed :
      (listens : ℕ → Bool) (blocks : List (Result String Block)) (sent : List (ℕ × Bytes))
      → on_blocks filters listens blocks sent
        ≡ sent ++ concat_map (messages listens) (streamed blocks)
  unfolding on_blocks
  on_blocks-streamed listens [] sent = sym (append-nil sent)
  on_blocks-streamed listens (err e ∷ blocks) sent = sym (append-nil sent)
  on_blocks-streamed listens (ok (err e) ∷ blocks) sent = on_blocks-streamed listens blocks sent
  on_blocks-streamed listens (ok (ok events) ∷ blocks) sent =
      on_blocks-streamed listens blocks (on_events filters listens events sent)
      ∙ ap (λ xs. xs ++ concat_map (messages listens) (streamed blocks))
          (on_events-decoded listens events sent)
      ∙ append_assoc sent _ _
      ∙ ap (λ xs. sent ++ xs)
          (sym (concat_map-append (messages listens) (decoded events) (streamed blocks)))

  subscribed-caused :
      (t : Turn) (r : Result String (List (Result String Block))) (s : Subscription)
      → s.connected ≡ true
      → ((subscribed filters t r s).connected ≡ connected_after t true r)
        × ((subscribed filters t r s).delivered ≡ s.delivered ++ caused t true r)
  unfolding subscribed
  subscribed-caused t (err e) s h = (refl, sym (append-nil s.delivered))
  subscribed-caused t (ok blocks) s h = (h, on_blocks-streamed t.listens blocks s.delivered)

  round-caused :
      (t : Turn) (s : Subscription)
      → ((round filters t s).connected ≡ connected_after t s.connected t.subscribe)
        × ((round filters t s).delivered ≡ s.delivered ++ caused t s.connected t.subscribe)
  unfolding round
  round-caused t s = elim (Bool-cases s.connected) [
    | inl up ↦ rw up (
        subscribed-caused t t.subscribe (record { connected = true; delivered = s.delivered }) refl)
    | inr down ↦ rw down (refl, sym (append-nil s.delivered))
  ]

  -- A round sends more messages, and takes none back.
  pub round_grows :
      (t : Turn) (s : Subscription)
      → (more : List (ℕ × Bytes)) × ((round filters t s).delivered ≡ s.delivered ++ more)
  round_grows t s = (caused t s.connected t.subscribe, (round-caused t s).1)

  -- The subscriber sends the payload of every event that can be decoded, in the order of the blocks
  -- and events, to every filter that names its pallet and its variant, in the order of the filters,
  -- as long as the filter's channel has a receiver, and sends nothing else; a subscription that fails
  -- costs a round for a new connection, and what follows a failed block of a stream is not sent.
  pub run-expected :
      (ts : List Turn) (s : Subscription)
      → (run filters ts s).delivered ≡ s.delivered ++ expected s.connected ts
  unfolding run
  run-expected [] s = sym (append-nil s.delivered)
  run-expected (t ∷ ts) s =
      let (connected, delivered) = round-caused t s in
      run-expected ts (round filters t s)
      ∙ ap₂ (λ xs up. xs ++ expected up ts) delivered connected
      ∙ append_assoc s.delivered _ _
