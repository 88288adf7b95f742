-- ===== src/System/Orders.antt =====
-- main.rs: what holds in every order of the tasks' steps.
use mathlib.Core.List.{append_assoc}
use noir_sidecar.Prelude.{ℕ, ◌≡◌, refl, sym, ap, ◌∙◌, true, List, [], ◌∷◌, ◌++◌, arith}
use noir_sidecar.Sdk.{Bytes, Pubkey}
use noir_sidecar.Client.Codec.{Codec}
use noir_sidecar.Event.{EventFilter}
use noir_sidecar.Event.Deliveries.{round_grows}
use noir_sidecar.Index.{AccountIndex, Indexer}
use noir_sidecar.Index.Contract.{Implements, View, contains_key}
use noir_sidecar.Index.Update.{TokenCrates}
use noir_sidecar.Index.Update.Excluded.{on_message-Spares}
use noir_sidecar.Index.Update.Grown.{on_message-Grows}
use noir_sidecar.System.{
  index_tx, sent_to, System, Waiting, take, Step, listen, work, serve, Reach, here, next,
}

sent_to-append :
    (tx : ℕ) (xs ys : List (ℕ × Bytes)) → sent_to tx (xs ++ ys) ≡ sent_to tx xs ++ sent_to tx ys
sent_to-append tx [] ys = refl
sent_to-append tx ((c, bytes) ∷ xs) ys = ground (arith, sent_to-append tx xs ys)

module _ {S : Type 0} (crates : TokenCrates) (indexer : Indexer S) (codec : Codec)
    (exclude_keys : List Pubkey) (filters : List EventFilter) (IsValid : S → Type 0) (view : View S)
    (contract : Implements indexer IsValid view) where
  -- The index is valid; it has the entries of excluded keys that it had at first; and the messages
  -- that the worker has taken are the first ones that were sent to it, in order.
  pub record IsConsistent (first s : System S) : Type 0 where
    pub valid : IsValid s.database
    pub spared :
        (x : Pubkey) (i : AccountIndex) (k : Pubkey)
        → contains_key x exclude_keys ≡ true
        → view s.database i k x ≡ view first.database i k x
    pub in_order : (waiting : List Bytes) × Waiting s waiting

  Step-IsConsistent :
      (first : System S) {s u : System S}
      → Step crates indexer codec exclude_keys filters s u
      → IsConsistent first s
      → IsConsistent first u
  unfolding take
  Step-IsConsistent first {s} (listen t _) c =
      let (more, grown) = round_grows filters t s.subscription in
      let (waiting, order) = c.in_order in
      record {
        valid = c.valid;
        spared = c.spared;
        in_order = (
          waiting ++ sent_to index_tx more,
          ap (sent_to index_tx) grown
              ∙ sent_to-append index_tx s.subscription.delivered more
              ∙ ap (λ xs. xs ++ sent_to index_tx more) order
              ∙ append_assoc s.handled waiting (sent_to index_tx more),
        );
      }
  Step-IsConsistent first {s} (work m ms _ order) c = record {
    valid =
        (on_message-Grows crates indexer codec IsValid view contract exclude_keys m s.node
          s.database c.valid).0;
    spared = λ x i k excluded.
        (on_message-Spares crates indexer codec IsValid view contract x exclude_keys excluded m
            s.node s.database c.valid).1
          i k
        ∙ c.spared x i k excluded;
    in_order = (ms, order ∙ sym (append_assoc s.handled (m ∷ []) ms));
  }
  Step-IsConsistent first (serve n) c = record {
    valid = c.valid;
    spared = c.spared;
    in_order = c.in_order;
  }

  -- In every order of the steps, from a fresh start over a valid index: the index stays valid, the
  -- worker adds and removes nothing for an excluded key, and it takes the messages of its channel in
  -- the order in which the subscriber sent them, each once and none left out.
  pub Reach-IsConsistent :
      (first : System S) {s : System S}
      → IsConsistent first first
      → Reach crates indexer codec exclude_keys filters first s
      → IsConsistent first s
  Reach-IsConsistent first c here = c
  Reach-IsConsistent first c (next r step) =
      Step-IsConsistent first step (Reach-IsConsistent first c r)
