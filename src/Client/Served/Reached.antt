-- ===== src/Client/Served/Reached.antt =====
-- client/mod.rs: `Client::request` over the connection task, while the node can be reached.
use noir_sidecar.Prelude.{
  ℕ, suc, ◌≡◌, ◌≤◌, refl, ap, subst, sym, ◌++◌, ◌∙◌, true, String, Option, none, some, List, [],
  ◌∷◌, length, All, arith,
}
use noir_sidecar.Prelude.Result.{Result, ok, err, map_err}
use noir_sidecar.Client.{
  Error, client_error, parse_error, Response, Request, request, ClientConfig, ArrayParams, Value,
}
use noir_sidecar.Client.Node.{returned, answered}
use noir_sidecar.Client.Calls
use noir_sidecar.Client.Loop.{Turn, WsOptions, WsClient, Task, running, ws_options, round, run}
use noir_sidecar.Client.Loop.Answers.{HandlerFails, Listens, IsLive}
use noir_sidecar.Client.Loop.Retries.{IsDown, run_reconnects, deliver-round}
use noir_sidecar.Client.Served.{enqueue, answer_of, received, deliver_to, task_after, task_node}

-- A JSON-RPC server behind the connection, as a function of the call.
abbrev pub Server : Type 0
Server = String → ArrayParams → Result String Value

-- In this round the callers wait and the server can be reached: a connection can be made, every
-- connection is up, and it replies as the server does.
pub record Reaches (server : Server) (t : Turn) : Type 0 where
  pub listens : Listens t
  pub builds : (options : WsOptions) → (c : WsClient) × (t.build options ≡ ok c)
  pub connected : (c : WsClient) → t.is_connected c ≡ true
  pub replies :
      (c : WsClient) (method : String) (params : ArrayParams)
      → t.reply c method params ≡ server method params

-- Besides, the loop takes a message.
abbrev Open : Server → Turn → Type 0
Open server t = HandlerFails t × Reaches server t

All-Open :
    (server : Server) (ts : List Turn)
    → All HandlerFails ts
    → All (Reaches server) ts
    → All (Open server) ts
All-Open server [] fails reached = tt
All-Open server (t ∷ ts) (f, fails) (r, reached) = ((f, r), All-Open server ts fails reached)

live_of : (server : Server) (t : Turn) → Open server t → IsLive t
live_of server t (fails, reaches) = (fails, reaches.listens)

-- What the caller makes of a response.
abbrev pub read_response : {A : Type 0} → (Value → Result String A) → Response → Result Error A
read_response from_value (ok v) = map_err parse_error (from_value v)
read_response from_value (err e) = err e

module _ (debug_params : ArrayParams → String) (server : Server) where
  -- The task runs, and waits for the next message.
  record Waits (s : Task) : Type 0 where
    runs : s.status ≡ running
    empty : s.queue ≡ []

  idle-round : (t : Turn) (s : Task) → Open server t → Waits s → round debug_params t s ≡ s
  unfolding round
  idle-round t s reaches w = ground (arith, reaches.0, w.runs, w.empty)

  run-idle :
      (ts : List Turn) (s : Task) → All (Open server) ts → Waits s → run debug_params ts s ≡ s
  unfolding run
  run-idle [] s all w = refl
  run-idle (t ∷ ts) s (reaches, all) w =
      ap (run debug_params ts) (idle-round t s reaches w) ∙ run-idle ts s all w

  -- The task has answered one more request, as the server replies.
  record Serves (r : Request) (s u : Task) : Type 0 where
    waits : Waits u
    answers : u.answers ≡ (r.response, map_err client_error (server r.method r.params)) ∷ s.answers

  Serves-run :
      (ts : List Turn) (r : Request) (s u : Task)
      → All (Open server) ts
      → Serves r s u
      → Serves r s (run debug_params ts u)
  Serves-run ts r s u all h = subst (Serves r s) (sym (run-idle ts u all h.waits)) h

  queued : (r : Request) (s : Task) → Waits s → (enqueue r s).queue ≡ request r ∷ []
  queued r s w = ap (λ q. q ++ request r ∷ []) w.empty

  -- A request with two retries or more, on any task that waits, with or without a connection.
  run-Serves :
      (t u v : Turn) (ts : List Turn) (r : Request) (k : ℕ) (s : Task) (client : Option WsClient)
      → All (Open server) (t ∷ u ∷ v ∷ ts)
      → Waits s
      → s.client ≡ client
      → r.retry ≡ suc (suc k)
      → Serves r s (run debug_params (t ∷ u ∷ v ∷ ts) (enqueue r s))
  unfolding run
  run-Serves t u v ts r k s none (rt, (ru, (rv, all))) w e p =
      let (c, built) = ru.1.builds (ws_options s.config) in
      let steps =
        run_reconnects debug_params t u v (enqueue r s) r k c
          (live_of server t rt, (live_of server u ru, (live_of server v rv, tt))) w.runs
          (queued r s w) (subst (IsDown t) (sym e) tt) p built (rv.1.connected c) in
      Serves-run ts r s (run debug_params (t ∷ u ∷ v ∷ []) (enqueue r s)) all (
        subst (Serves r s) (sym steps) (record {
          waits = record { runs = w.runs; empty = refl };
          answers =
              ap (λ x. (r.response, map_err client_error x) ∷ s.answers)
                (rv.1.replies c r.method r.params);
        }))
  run-Serves t u v ts r k s (some c) (rt, rest) w e p =
      let step =
        deliver-round debug_params t (enqueue r s) r [] c (suc k) (live_of server t rt) w.runs
          (queued r s w) e (rt.1.connected c) p in
      Serves-run (u ∷ v ∷ ts) r s (round debug_params t (enqueue r s)) rest (
        subst (Serves r s) (sym step) (record {
          waits = record { runs = w.runs; empty = refl };
          answers =
              ap (λ x. (r.response, map_err client_error x) ∷ s.answers)
                (rt.1.replies c r.method r.params);
        }))

  serve-Serves :
      (ts : List Turn) (r : Request) (k : ℕ) (s : Task)
      → All (Open server) ts
      → 3 ≤ length ts
      → Waits s
      → r.retry ≡ suc (suc k)
      → Serves r s (run debug_params ts (enqueue r s))
  serve-Serves [] r k s all h w p = absurd (omega (arith, h))
  serve-Serves (t ∷ []) r k s all h w p = absurd (omega (arith, h))
  serve-Serves (t ∷ u ∷ []) r k s all h w p = absurd (omega (arith, h))
  serve-Serves (t ∷ u ∷ v ∷ ts) r k s all h w p = run-Serves t u v ts r k s s.client all w refl p

  module _ (config : ClientConfig) (turns : ℕ → List Turn)
      (fails : (i : ℕ) → All HandlerFails (turns i))
      (reached : (i : ℕ) → All (Reaches server) (turns i))
      (enough : (i : ℕ) → 3 ≤ length (turns i)) where
    -- Every request of the history has the retries that `Client::request` gives it.
    abbrev pub Retries : List Request → Type 0
    Retries sent = All (λ r. r.retry ≡ 3) sent

    task_after-Waits :
        (sent : List Request) → Retries sent → Waits (task_after debug_params config turns sent)
    unfolding task_after
    task_after-Waits [] retries = record { runs = refl; empty = refl }
    task_after-Waits (r ∷ sent) (three, retries) =
        (serve-Serves (turns (length sent)) r 1 (task_after debug_params config turns sent)
          (All-Open server (turns (length sent)) (fails (length sent)) (reached (length sent)))
          (enough (length sent)) (task_after-Waits sent retries) three).waits

    answer_first :
        (id : ℕ) (response : Response) (answers rest : List (ℕ × Response))
        → answers ≡ (id, response) ∷ rest
        → answer_of id answers ≡ some response
    answer_first id response answers rest e = ground (arith, e)

    pub delivers :
        (r : Request) (sent : List Request)
        → Retries sent
        → r.retry ≡ 3
        → (task_node debug_params config turns sent).deliver sent r
          ≡ answered (map_err client_error (server r.method r.params))
    unfolding task_node deliver_to task_after
    delivers r sent retries three =
        let s = task_after debug_params config turns sent in
        let waits = task_after-Waits sent retries in
        let served =
          serve-Serves (turns (length sent)) r 1 s
            (All-Open server (turns (length sent)) (fails (length sent)) (reached (length sent)))
            (enough (length sent)) waits three in
        ap (λ status. deliver_to debug_params config turns status r sent) waits.runs
        ∙ ap received (
            answer_first r.response (map_err client_error (server r.method r.params))
              (task_after debug_params config turns (r ∷ sent)).answers s.answers served.answers)

    -- When in every round of the connection task the Ctrl-C handler cannot be installed, which is when
    -- the loop takes messages at all, the callers wait and the server can be reached, with three rounds
    -- or more for each request: a call of `Client::request` returns what the server replies to it, read
    -- at the type asked for, after any history of such calls, the first of which finds no connection;
    -- and the node that the caller sees next is the same one, with that request in its history.
    pub request-Reaches :
        {A : Type 0} (from_value : Value → Result String A) (method : String) (params : ArrayParams)
        (sent : List Request)
        → Retries sent
        → Calls.request from_value method params (task_node debug_params config turns sent) ≡ (
          returned (read_response from_value (map_err client_error (server method params))),
          task_node debug_params config turns (Calls.new_request method params sent ∷ sent),
        )
    unfolding Calls.request task_node
    request-Reaches from_value method params sent retries =
        rw (delivers (Calls.new_request method params sent) sent retries refl) refl
