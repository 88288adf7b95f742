-- ===== src/Client/Loop/Tests.antt =====
-- client/mod.rs, `Client::run`: the loop on small inputs.
use noir_sidecar.Prelude.{ℕ, ◌≡◌, refl, String, true, false, none, some, [], ◌∷◌, ◌++◌, Perm, arith}
use noir_sidecar.Prelude.Result.{ok, err}
use noir_sidecar.Client.{ArrayParams, Request, ClientConfig, request}
use noir_sidecar.Client.Loop.{
  Turn, waiting, unavailable, Task, running, panicked, start, handle, round, run,
}
use noir_sidecar.Client.Loop.Signals.{run-idle}
use noir_sidecar.Client.Loop.Answers.{IsLive, answered, pending, run-keeps, run-answers}
use noir_sidecar.Client.Loop.Retries.{run_after_lost_caller}

abbrev local : ClientConfig
local = record {
  endpoint = "ws://127.0.0.1:9944";
  request_timeout_seconds = some 30;
  connection_timeout_seconds = none;
  max_concurrent_requests = none;
  max_response_size = none;
}

abbrev show : ArrayParams → String
show params = "[]"

-- A round in which the node is reached, answers "1", and every caller waits.
abbrev up : Turn
up = record {
  ctrl_c = unavailable;
  build = λ options. ok 7;
  is_connected = λ c. true;
  reply = λ c method params. ok "1";
  listens = λ id. true;
}

abbrev down : Turn
down = record up { build = λ options. err "refused" }

abbrev idle : Turn
idle = record up { ctrl_c = waiting }

abbrev deaf : Turn
deaf = record up { listens = λ id. false }

abbrev asks : ℕ → ℕ → Request
asks id retry = record { method = "chain_getBlockHash"; params = []; response = id; retry = retry }

abbrev loaded : Task
loaded = start local (request (asks 1 3) ∷ request (asks 2 3) ∷ [])

abbrev single : Task
single = start local (request (asks 1 3) ∷ [])

served_test :
    (run show (up ∷ up ∷ up ∷ up ∷ up ∷ up ∷ []) loaded).answers ≡ (2, ok "1") ∷ (1, ok "1") ∷ []
unfolding run round handle
served_test = refl

run-idle_example : (run show (idle ∷ idle ∷ []) loaded).queue ≡ loaded.queue
run-idle_example = (run-idle show (idle ∷ idle ∷ []) loaded ((λ e. cc), ((λ e. cc), tt))).0

abbrev up_IsLive : IsLive up
up_IsLive = (refl, λ id. refl)

abbrev down_IsLive : IsLive down
down_IsLive = (refl, λ id. refl)

abbrev one_retry : Task
one_retry = start local (request (asks 1 1) ∷ [])

abbrev everyone : (id : ℕ) → true ≡ true
everyone id = refl

-- The loop waits for the signal in the second of the rounds.
run-answers_example : Perm (answered (run show (down ∷ idle ∷ up ∷ up ∷ []) one_retry)) (1 ∷ [])
run-answers_example =
    (run-answers show (down ∷ idle ∷ up ∷ up ∷ []) one_retry
      ((λ e. cc), ((λ e. cc), ((λ e. cc), ((λ e. cc), tt))))
      (everyone, (everyone, (everyone, (everyone, tt)))) refl (omega arith)).2

-- Two rounds are not enough for the two requests.
run-keeps_example :
    ((run show (down ∷ idle ∷ []) loaded).status ≡ running)
    × Perm
        (answered (run show (down ∷ idle ∷ []) loaded)
          ++ pending (run show (down ∷ idle ∷ []) loaded).queue)
        (1 ∷ 2 ∷ [])
run-keeps_example =
    run-keeps show (down ∷ idle ∷ []) loaded ((λ e. cc), ((λ e. cc), tt)) (everyone, (everyone, tt))
      refl

abbrev connected : Task
connected = record loaded { client = some 7 }

run_after_lost_caller_example :
    run show (deaf ∷ up ∷ up ∷ []) connected
    ≡ record connected { queue = request (asks 2 3) ∷ []; status = panicked }
run_after_lost_caller_example =
    run_after_lost_caller show deaf (up ∷ up ∷ []) connected (asks 1 3) (request (asks 2 3) ∷ []) 7
      refl refl refl refl refl refl (λ e. absurd (omega (arith, e)))
