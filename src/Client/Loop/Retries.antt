-- ===== src/Client/Loop/Retries.antt =====
-- client/mod.rs, `Client::run`: what happens to a request when the connection is down, and when the
-- caller has gone away.
use noir_sidecar.Prelude.{
  ℕ, suc, ◌≡◌, ◌≢◌, refl, ap, ◌∙◌, true, false, String, Option, none, some, List, [], ◌∷◌, All,
  arith,
}
use noir_sidecar.Prelude.Result.{Result, ok, err, map_err, to_option}
use noir_sidecar.Client.{client_error, ArrayParams, Request, Message, request, try_connect}
use noir_sidecar.Client.Loop.{
  Turn, Task, running, panicked, WsClient, ws_options, connect, handle, round, run,
}
use noir_sidecar.Client.Loop.Answers.{HandlerFails, IsLive}

-- The connection that the task holds, if any, is seen to be down in this round.
abbrev pub IsDown : Turn → Option WsClient → Type 0
IsDown t none = Unit {0}
IsDown t (some c) = t.is_connected c ≡ false

-- The node cannot be reached, whatever the options.
abbrev pub Unreachable : Turn → Task → Type 0
Unreachable t s = (e : String) × (t.build (ws_options s.config) ≡ err e)

abbrev one_request : Task → Request → Task
one_request s r = record s { queue = request r ∷ [] }

module _ (debug_params : ArrayParams → String) where
  requeue-round :
      (t : Turn) (s : Task) (r : Request) (k : ℕ) (c : Option WsClient)
      → IsLive t
      → s.status ≡ running
      → s.queue ≡ request r ∷ []
      → s.client ≡ c
      → IsDown t c
      → r.retry ≡ suc k
      → round debug_params t s
        ≡ record s { queue = try_connect ∷ request (record r { retry = k }) ∷ [] }
  unfolding round handle
  requeue-round t s r k none l h q e d p = ground (arith, l.0)
  requeue-round t s r k (some c) l h q e d p = ground (arith, l.0)

  connect-round :
      (t : Turn) (s : Task) (ms : List Message) (w : Result String WsClient)
      → IsLive t
      → s.status ≡ running
      → s.queue ≡ try_connect ∷ ms
      → t.build (ws_options s.config) ≡ w
      → round debug_params t s ≡ record s { queue = ms; client = to_option w }
  unfolding round handle connect
  connect-round t s ms (ok c) l h q e = ground (arith, l.0)
  connect-round t s ms (err x) l h q e = ground (arith, l.0)

  pub deliver-round :
      (t : Turn) (s : Task) (r : Request) (ms : List Message) (c : WsClient) (k : ℕ)
      → IsLive t
      → s.status ≡ running
      → s.queue ≡ request r ∷ ms
      → s.client ≡ some c
      → t.is_connected c ≡ true
      → r.retry ≡ suc k
      → round debug_params t s ≡ record s {
        queue = ms;
        answers = (r.response, map_err client_error (t.reply c r.method r.params)) ∷ s.answers;
      }
  unfolding round handle
  deliver-round t s r ms c k l h q e up p = ground (arith, l.0, l.1 r.response)

  lost-round :
      (t : Turn) (s : Task) (r : Request) (ms : List Message) (c : WsClient)
      → HandlerFails t
      → t.listens r.response ≡ false
      → s.status ≡ running
      → s.queue ≡ request r ∷ ms
      → s.client ≡ some c
      → t.is_connected c ≡ true
      → r.retry ≢ 0
      → round debug_params t s ≡ record s { queue = ms; status = panicked }
  unfolding round handle
  lost-round t s r ms c l gone h q e up p = ground arith

  -- One failed attempt: the request goes round once, with one retry less and no connection.
  abbrev failed_attempt : Task → Request → ℕ → Task
  failed_attempt s r k = record s { queue = request (record r { retry = k }) ∷ []; client = none }

  -- A request that finds the connection down, with two retries or more, is sent over the connection
  -- that the next round makes, and its caller gets what the node replies there.
  pub run_reconnects :
      (t u v : Turn) (s : Task) (r : Request) (k : ℕ) (c : WsClient)
      → All IsLive (t ∷ u ∷ v ∷ [])
      → s.status ≡ running
      → s.queue ≡ request r ∷ []
      → IsDown t s.client
      → r.retry ≡ suc (suc k)
      → u.build (ws_options s.config) ≡ ok c
      → v.is_connected c ≡ true
      → run debug_params (t ∷ u ∷ v ∷ []) s ≡ record s {
        queue = [];
        client = some c;
        answers = (r.response, map_err client_error (v.reply c r.method r.params)) ∷ s.answers;
      }
  unfolding run
  run_reconnects t u v s r k c (l, (m, (n, _))) h q d p e up =
      ap (λ x. round debug_params v (round debug_params u x))
        (requeue-round t s r (suc k) s.client l h q refl d p)
      ∙ ap (round debug_params v) (
          connect-round u (record s { queue = try_connect ∷ request (retried r) ∷ [] })
            (request (retried r) ∷ []) (ok c) m h refl e)
      ∙ deliver-round v (record s { queue = request (retried r) ∷ []; client = some c }) (retried r)
          [] c k n h refl refl up refl
    where
      retried : Request → Request
      retried x = record x { retry = suc k }

  panicked-round : (t : Turn) (s : Task) → s.status ≡ panicked → round debug_params t s ≡ s
  unfolding round
  panicked-round t s h = ground arith

  run-panicked : (ts : List Turn) (s : Task) → s.status ≡ panicked → run debug_params ts s ≡ s
  unfolding run
  run-panicked [] s h = refl
  run-panicked (t ∷ ts) s h = ap (run debug_params ts) (panicked-round t s h) ∙ run-panicked ts s h

  -- A running task with a connection that is up takes a request that has retries left, in a round in
  -- which the Ctrl-C handler cannot be installed. If the caller no longer waits when the node's reply
  -- arrives, the task panics, and whatever the later rounds bring, the other requests stay in the
  -- queue and nobody is answered.
  pub run_after_lost_caller :
      (t : Turn) (ts : List Turn) (s : Task) (r : Request) (ms : List Message) (c : WsClient)
      → HandlerFails t
      → t.listens r.response ≡ false
      → s.status ≡ running
      → s.queue ≡ request r ∷ ms
      → s.client ≡ some c
      → t.is_connected c ≡ true
      → r.retry ≢ 0
      → run debug_params (t ∷ ts) s ≡ record s { queue = ms; status = panicked }
  unfolding run
  run_after_lost_caller t ts s r ms c l gone h q e up p =
      ap (run debug_params ts) (lost-round t s r ms c l gone h q e up p)
      ∙ run-panicked ts (record s { queue = ms; status = panicked }) refl
