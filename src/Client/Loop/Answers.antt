-- ===== src/Client/Loop/Answers.antt =====
-- client/mod.rs, `Client::run`: who is answered, and the rounds that it takes.
use mathlib.Core.List.{perm_middle, perm_append_singleton, append-nil}
use mathlib.Core.List.Perm
use noir_sidecar.Prelude.{
  ℕ, String, suc, ◌+◌, ◌-◌, ◌*◌, ◌≤◌, ◌≡◌, ◌≢◌, ◌⊎◌, refl, ap, subst, sym, ◌∙◌, inl, inr, true,
  false, Option, none, some, List, [], ◌∷◌, ◌++◌, map, Perm, All, arith, Bool-cases, ◌==◌,
}
use noir_sidecar.Client.{ArrayParams, Request, Message, request, try_connect}
use noir_sidecar.Client.Loop.{
  Turn, Signal, waiting, received, unavailable, Task, running, WsClient, requeue, send_unwrap,
  serve, take_message, handle, round, run,
}

-- The callers still wait in this round.
abbrev pub Listens : Turn → Type 0
Listens t = (id : ℕ) → t.listens id ≡ true

-- The Ctrl-C handler cannot be installed in this round: the only rounds in which the loop takes a
-- message.
abbrev pub HandlerFails : Turn → Type 0
HandlerFails t = t.ctrl_c ≡ unavailable

abbrev pub IsLive : Turn → Type 0
IsLive t = HandlerFails t × Listens t

abbrev passed : Signal → ℕ
passed waiting = 0
passed received = 0
passed unavailable = 1

-- The rounds in which the Ctrl-C handler cannot be installed.
abbrev pub passes : List Turn → ℕ
passes [] = 0
passes (t ∷ ts) = passed t.ctrl_c + passes ts

abbrev pub weight : Message → ℕ
weight (request r) = 2 * r.retry + 1
weight try_connect = 1

-- The rounds that a queue can still take.
abbrev pub work : List Message → ℕ
work [] = 0
work (m ∷ ms) = weight m + work ms

-- The callers whose requests are in the queue, and those that have their answer.
abbrev pub pending : List Message → List ℕ
pending [] = []
pending (request r ∷ ms) = r.response ∷ pending ms
pending (try_connect ∷ ms) = pending ms

abbrev pub answered : Task → List ℕ
answered s = map (λ a. a.0) s.answers

abbrev callers : Task → List ℕ
callers s = answered s ++ pending s.queue

Signal-cases : (s : Signal) → (s ≡ waiting ⊎ s ≡ unavailable) ⊎ s ≡ received
Signal-cases waiting = inl (inl refl)
Signal-cases unavailable = inl (inr refl)
Signal-cases received = inr refl

work-append : (xs ys : List Message) → work (xs ++ ys) ≡ work xs + work ys
work-append [] ys = omega arith
work-append (x ∷ xs) ys = omega (arith, work-append xs ys)

work-zero : (q : List Message) → work q ≤ 0 → q ≡ []
work-zero [] h = refl
work-zero (request r ∷ ms) h = absurd (omega arith)
work-zero (try_connect ∷ ms) h = absurd (omega arith)

pending-append : (xs ys : List Message) → pending (xs ++ ys) ≡ pending xs ++ pending ys
pending-append [] ys = refl
pending-append (request r ∷ xs) ys = ap (λ l. r.response ∷ l) (pending-append xs ys)
pending-append (try_connect ∷ xs) ys = pending-append xs ys

-- What handling one message does to the bookkeeping.
record Handles (m : Message) (s u : Task) : Type 0 where
  runs : u.status ≡ running
  works : work u.queue + 1 ≤ weight m + work s.queue
  keeps : Perm (callers u) (answered s ++ pending (m ∷ s.queue))

-- What a round does to it, with `k` rounds to come.
record Advances (k : ℕ) (s u : Task) : Type 0 where
  runs : u.status ≡ running
  works : work u.queue ≤ k
  keeps : Perm (callers u) (callers s)

module _ (debug_params : ArrayParams → String) (t : Turn) (live : IsLive t) where
  requeue-Handles :
      (r : Request) (s : Task)
      → s.status ≡ running
      → (r.retry == 0) ≡ false
      → Handles (request r) s (requeue r s)
  unfolding requeue
  requeue-Handles r s h pos = record {
    runs = h;
    works = ground (arith, work-append s.queue (requeued r));
    keeps =
        rw (pending-append s.queue (requeued r))
          (Perm.append_left (answered s) (perm_append_singleton r.response (pending s.queue)));
  }
    where
      requeued : Request → List Message
      requeued q = try_connect ∷ request (record q { retry = q.retry - 1 }) ∷ []

  answer-Handles :
      (r : Request) (s u : Task)
      → s.status ≡ running
      → u.status ≡ running
      → u.queue ≡ s.queue
      → answered u ≡ r.response ∷ answered s
      → Handles (request r) s u
  answer-Handles r s u h hu hq ha = record {
    runs = hu;
    works = rw hq (omega arith);
    keeps = rw (hq, ha) (Perm.symm (perm_middle (answered s) (pending s.queue)));
  }

  serve-Handles :
      (r : Request) (c : Option WsClient) (s : Task)
      → s.status ≡ running
      → (r.retry == 0) ≡ false
      → Handles (request r) s (serve debug_params t r c s)
  unfolding serve send_unwrap
  serve-Handles r none s h pos = requeue-Handles r s h pos
  serve-Handles r (some c) s h pos = elim (Bool-cases (t.is_connected c)) [
    | inl up ↦ rw (up, live.1 r.response) (answer-Handles r s _ h h refl refl)
    | inr down ↦ rw down (requeue-Handles r s h pos)
  ]

  handle-Handles :
      (m : Message) (s : Task) → s.status ≡ running → Handles m s (handle debug_params t m s)
  unfolding handle
  handle-Handles (request r) s h = elim (Bool-cases (r.retry == 0)) [
    | inl z ↦ rw (z, live.1 r.response) (answer-Handles r s _ h h refl refl)
    | inr pos ↦ rw pos (serve-Handles r s.client s h pos)
  ]
  handle-Handles try_connect s h = record { runs = h; works = omega arith; keeps = Perm.refl _ }

  round-take :
      (s : Task)
      → s.status ≡ running
      → round debug_params t s ≡ take_message debug_params t s.queue s
  unfolding round
  round-take s h = ground (arith, live.0)

  take-Advances :
      (k : ℕ) (q : List Message) (s : Task)
      → s.status ≡ running
      → s.queue ≡ q
      → work q ≤ suc k
      → Advances k s (take_message debug_params t q s)
  unfolding take_message
  take-Advances k [] s h e w = record {
    runs = h;
    works = omega (arith, ap work e);
    keeps = Perm.refl _;
  }
  take-Advances k (m ∷ ms) s h e w =
      let step = handle-Handles m (record s { queue = ms }) h in
      record {
        runs = step.runs;
        works = omega (arith, step.works);
        keeps =
            subst
              (λ l.
                Perm (callers (handle debug_params t m (record s { queue = ms })))
                  (answered s ++ pending l))
              (sym e) step.keeps;
      }

  round-Advances :
      (k : ℕ) (s : Task)
      → s.status ≡ running
      → work s.queue ≤ suc k
      → Advances k s (round debug_params t s)
  round-Advances k s h w =
      subst (Advances k s) (sym (round-take s h)) (take-Advances k s.queue s h refl w)

module _ (debug_params : ArrayParams → String) where
  -- What a run does to the bookkeeping.
  record Works (ts : List Turn) (s u : Task) : Type 0 where
    runs : u.status ≡ running
    works : work u.queue ≤ work s.queue - passes ts
    keeps : Perm (callers u) (callers s)

  round-waiting :
      (t : Turn) (s : Task) → t.ctrl_c ≡ waiting → s.status ≡ running → round debug_params t s ≡ s
  unfolding round
  round-waiting t s w h = ground arith

  -- The rounds in which the loop waits for the signal leave everything as it is.
  run-Works :
      (ts : List Turn) (s : Task)
      → All (λ t. t.ctrl_c ≢ received) ts
      → All Listens ts
      → s.status ≡ running
      → Works ts s (run debug_params ts s)
  unfolding run
  run-Works [] s quiet listen h = record { runs = h; works = omega arith; keeps = Perm.refl _ }
  run-Works (t ∷ ts) s (q, quiet) (l, listen) h = elim (Signal-cases t.ctrl_c) [
    | inl (inl idle) ↦
        let rest = run-Works ts s quiet listen h in
        let same = ap (run debug_params ts) (round-waiting t s idle h) in
        record {
          runs = ap (λ u. u.status) same ∙ rest.runs;
          works = rw (same, idle) (omega (arith, rest.works));
          keeps = rw same rest.keeps;
        }
    | inl (inr fails) ↦
        let step = round-Advances debug_params t (fails, l) (work s.queue - 1) s h (omega arith) in
        let rest = run-Works ts (round debug_params t s) quiet listen step.runs in
        record {
          runs = rest.runs;
          works = omega (arith, step.works, rest.works, ap passed fails);
          keeps = Perm.trans rest.keeps step.keeps;
        }
    | inr signal ↦ absurd (q signal)
  ]

  -- Given any rounds in which no Ctrl-C arrives and every caller still waits, whether the Ctrl-C handler
  -- can be installed or not, a running task keeps running and loses no request: the callers that have
  -- their answer and those in the queue are together the ones of the start, each as often.
  pub run-keeps :
      (ts : List Turn) (s : Task)
      → All (λ t. t.ctrl_c ≢ received) ts
      → All Listens ts
      → s.status ≡ running
      → ((run debug_params ts s).status ≡ running)
        × Perm
            (answered (run debug_params ts s) ++ pending (run debug_params ts s).queue)
            (answered s ++ pending s.queue)
  run-keeps ts s quiet listen h = let all = run-Works ts s quiet listen h in (all.runs, all.keeps)

  -- Given any rounds in which no Ctrl-C arrives and every caller still waits, among them as many in
  -- which the Ctrl-C handler cannot be installed as the queue has work: a running task keeps running,
  -- empties its queue, and has then answered every waiting caller once, and nobody else.
  pub run-answers :
      (ts : List Turn) (s : Task)
      → All (λ t. t.ctrl_c ≢ received) ts
      → All Listens ts
      → s.status ≡ running
      → work s.queue ≤ passes ts
      → ((run debug_params ts s).status ≡ running)
        × ((run debug_params ts s).queue ≡ [])
        × Perm (answered (run debug_params ts s)) (answered s ++ pending s.queue)
  run-answers ts s quiet listen h w =
      let all = run-Works ts s quiet listen h in
      let empty = work-zero (run debug_params ts s).queue (omega (arith, all.works)) in
      (
        all.runs,
        empty,
        subst (λ l. Perm l (callers s))
            (ap (λ q. answered (run debug_params ts s) ++ pending q) empty ∙ append-nil _)
            all.keeps,
      )
