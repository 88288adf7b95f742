-- ===== src/Client/Loop.antt =====
-- client/mod.rs, `Client::run`: the task that takes messages from the channel and talks to the
-- node. One `Turn` is what the environment does during one round of the `loop`; the channel never
-- closes, since the task holds a sender of it, so a round on an empty channel waits.
pub mod Signals
pub mod Answers
pub mod Retries
mod Tests
use Prim.Native.String
use noir_sidecar.Prelude.{
  ℕ, ◌-◌, ◌*◌, String, Bool, true, false, Option, none, some, List, [], ◌∷◌, ◌++◌, ◌==◌,
  if◌then◌else◌, unwrap_or,
}
use noir_sidecar.Prelude.Result.{Result, ok, err, map_err, to_option}
use noir_sidecar.Client.{
  Error, client_error, request_failed, Response, Request, Message, request, try_connect,
  ClientConfig, ArrayParams, Value,
}

-- A connection, by a name of its own.
abbrev pub WsClient : Type 0
WsClient = ℕ

-- What `WsClientBuilder` is told. Timeouts are in seconds.
pub record WsOptions : Type 0 where
  pub request_timeout : ℕ
  pub connection_timeout : ℕ
  pub max_concurrent_requests : ℕ
  pub max_response_size : ℕ
  pub url : String

-- How `tokio::signal::ctrl_c().await` goes on: it is still waiting, it returns because the signal
-- came, or it returns because the handler could not be installed.
pub data Signal : Type 0 where
  waiting received unavailable : Signal

pub record Turn : Type 0 where
  pub ctrl_c : Signal
  pub build : WsOptions → Result String WsClient
  pub is_connected : WsClient → Bool
  pub reply : WsClient → String → ArrayParams → Result String Value
  -- Whether the receiver of a oneshot channel still exists.
  pub listens : ℕ → Bool

pub data Status : Type 0 where
  running stopped panicked : Status

-- The variables of the task, and the answers that it has sent, newest first.
pub record Task : Type 0 where
  pub config : ClientConfig
  pub client : Option WsClient
  pub queue : List Message
  pub answers : List (ℕ × Response)
  pub status : Status

abbrev pub start : ClientConfig → List Message → Task
start config queue = record {
  config = config;
  client = none;
  queue = queue;
  answers = [];
  status = running;
}

unfoldable pub ws_options : ClientConfig → WsOptions
ws_options config = record {
  request_timeout = unwrap_or 30 config.request_timeout_seconds;
  connection_timeout = unwrap_or 30 config.connection_timeout_seconds;
  max_concurrent_requests = unwrap_or 2048 config.max_concurrent_requests;
  max_response_size = unwrap_or (20 * 1024 * 1024) config.max_response_size;
  url = config.endpoint;
}

-- `Client::try_connect`.
unfoldable pub connect : Turn → ClientConfig → Result Error WsClient
unfolding ws_options
connect t config = map_err client_error (t.build (ws_options config))

abbrev refusal : (ArrayParams → String) → Request → Response
refusal debug_params r = err (
    request_failed (
      String.◌++◌ "Request failed. method="
        (String.◌++◌ r.method (String.◌++◌ ", params=" (debug_params r.params)))))

-- `let _ = res_tx.send(…)`: an answer that nobody waits for is dropped.
send : Turn → ℕ → Response → Task → Task
send t id response s = if t.listens id then record s { answers = (id, response) ∷ s.answers } else s

-- `res_tx.send(response).unwrap()`.
send_unwrap : Turn → ℕ → Response → Task → Task
send_unwrap t id response s =
    if t.listens id
    then record s { answers = (id, response) ∷ s.answers }
    else record s { status = panicked }

-- Both places that ask for a connection and send the request round again.
requeue : Request → Task → Task
requeue r s = record s {
  queue = s.queue ++ try_connect ∷ request (record r { retry = r.retry - 1 }) ∷ [];
}

module _ (debug_params : ArrayParams → String) (t : Turn) where
  serve : Request → Option WsClient → Task → Task
  serve r none s = requeue r s
  serve r (some c) s =
      if t.is_connected c
      then send_unwrap t r.response (map_err client_error (t.reply c r.method r.params)) s
      else requeue r s

  unfoldable pub handle : Message → Task → Task
  unfolding serve send send_unwrap requeue connect
  handle (request r) s =
      if r.retry == 0 then send t r.response (refusal debug_params r) s else serve r s.client s
  handle try_connect s = record s { client = to_option (connect t s.config) }

  take_message : List Message → Task → Task
  take_message [] s = s
  take_message (m ∷ ms) s = handle m (record s { queue = ms })

  after_signal : Signal → Task → Task
  after_signal waiting s = s
  after_signal received s = record s { status = stopped }
  after_signal unavailable s = take_message s.queue s

  round_of : Status → Task → Task
  round_of running s = after_signal t.ctrl_c s
  round_of stopped s = s
  round_of panicked s = s

  -- One round of the loop, or nothing when the task has ended.
  unfoldable pub round : Task → Task
  unfolding round_of after_signal take_message
  round s = round_of s.status s

unfoldable pub run : (ArrayParams → String) → List Turn → Task → Task
run debug_params [] s = s
run debug_params (t ∷ ts) s = run debug_params ts (round debug_params t s)
