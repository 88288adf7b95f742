-- ===== src/Client/Loop/Signals.antt =====
-- client/mod.rs, `Client::run`: what the loop does when the Ctrl-C handler can be installed.
use noir_sidecar.Prelude.{◌≡◌, refl, ◌∙◌, ◌≢◌, String, List, [], ◌∷◌, All, arith}
use noir_sidecar.Client.{ArrayParams}
use noir_sidecar.Client.Loop.{Turn, unavailable, Task, round, run}

-- The rounds in which the handler is installed, as it is on a working system.
abbrev pub HandlerInstalled : List Turn → Type 0
HandlerInstalled ts = All (λ t. t.ctrl_c ≢ unavailable) ts

module _ (debug_params : ArrayParams → String) where
  round-idle :
      (t : Turn) (s : Task)
      → t.ctrl_c ≢ unavailable
      → ((round debug_params t s).queue ≡ s.queue)
        × ((round debug_params t s).answers ≡ s.answers)
        × ((round debug_params t s).client ≡ s.client)
  unfolding round
  round-idle t s h = ground arith

  -- While the Ctrl-C handler can be installed, the loop takes no message from the channel: after any
  -- number of rounds the queue, the answers and the connection are what they were.
  pub run-idle :
      (ts : List Turn) (s : Task)
      → HandlerInstalled ts
      → ((run debug_params ts s).queue ≡ s.queue)
        × ((run debug_params ts s).answers ≡ s.answers)
        × ((run debug_params ts s).client ≡ s.client)
  unfolding run
  run-idle [] s h = (refl, refl, refl)
  run-idle (t ∷ ts) s (h, hs) =
      let (q, a, c) = run-idle ts (round debug_params t s) hs in
      let (q', a', c') = round-idle t s h in (q ∙ q', a ∙ a', c ∙ c')
