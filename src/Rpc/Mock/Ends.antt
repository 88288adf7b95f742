-- ===== src/Rpc/Mock/Ends.antt =====
-- rpc/solana/mock/svm.rs, `LiteSVM::run`: the order in which requests are served, and the end.
use text.Mathlib.Text.{◌==◌ as str_eq}
use noir_sidecar.Prelude.{
  ℕ, zero, suc, ◌<◌, length, ◌≡◌, refl, ap, ◌∙◌, true, false, Bool, List, [], ◌∷◌, ◌++◌, All, arith,
}
use noir_sidecar.Rpc.Mock.Svm.{
  SvmRequest, SvmResult, SvmTask, Vm, Formats, dispatch, respond, turn, run,
}

-- Whether a request asks the task to end.
abbrev pub terminates : SvmRequest → Bool
terminates r = str_eq r.method "terminateSvm"

module _ {V : Type 0} (vm : Vm V) (formats : Formats) where
  -- The machine and the answers after requests that are served one by one, each at the machine that
  -- the earlier ones leave.
  abbrev pub served : List SvmRequest → V → List (ℕ × SvmResult) → V × List (ℕ × SvmResult)
  served [] v answers = (v, answers)
  served (r ∷ rs) v answers =
      let o = dispatch vm formats r.method r.params v in
      served rs o.1 (respond r.response o.0 answers)

  pub turn_serves :
      (s : SvmTask V) (r : SvmRequest) (rs : List SvmRequest)
      → s.running ≡ true
      → s.queue ≡ r ∷ rs
      → terminates r ≡ false
      → turn vm formats s ≡ record s {
        queue = rs;
        svm = (dispatch vm formats r.method r.params s.svm).1;
        answers = respond r.response (dispatch vm formats r.method r.params s.svm).0 s.answers;
      }
  unfolding turn
  turn_serves s r rs runs queued goes_on = ground (arith, runs, queued, goes_on)

  pub turn_ends :
      (s : SvmTask V) (r : SvmRequest) (rs : List SvmRequest)
      → s.running ≡ true
      → s.queue ≡ r ∷ rs
      → terminates r ≡ true
      → turn vm formats s ≡ record s { queue = rs; running = false }
  unfolding turn
  turn_ends s r rs runs queued ends = ground (arith, runs, queued, ends)

  run_ended : (turns : ℕ) (s : SvmTask V) → s.running ≡ false → run vm formats turns s ≡ s
  unfolding run turn
  run_ended zero s ended = refl
  run_ended (suc turns) s ended =
      ap (run vm formats turns) (ground (arith, ended)) ∙ run_ended turns s ended

  -- Given more turns than there are requests before the first `terminateSvm`, the task serves those in
  -- order, each at the machine that the earlier ones leave; there it ends, and it leaves the later
  -- requests in the channel, without an answer, however many turns follow.
  pub run-terminates :
      (before after : List SvmRequest) (end : SvmRequest) (turns : ℕ) (s : SvmTask V)
      → length before < turns
      → s.running ≡ true
      → s.queue ≡ before ++ end ∷ after
      → All (λ r. terminates r ≡ false) before
      → terminates end ≡ true
      → run vm formats turns s ≡ record s {
        queue = after;
        running = false;
        svm = (served before s.svm s.answers).0;
        answers = (served before s.svm s.answers).1;
      }
  unfolding run
  run-terminates before after end zero s enough runs queued goes_on ends =
      absurd (omega (arith, enough))
  run-terminates [] after end (suc turns) s enough runs queued goes_on ends =
      ap (run vm formats turns) (turn_ends s end after runs queued ends)
      ∙ run_ended turns (record s { queue = after; running = false }) refl
  run-terminates (r ∷ before) after end (suc turns) s enough runs queued (first, goes_on) ends =
      let t : SvmTask V = record s {
        queue = before ++ end ∷ after;
        svm = (dispatch vm formats r.method r.params s.svm).1;
        answers = respond r.response (dispatch vm formats r.method r.params s.svm).0 s.answers;
      } in
      ap (run vm formats turns) (turn_serves s r (before ++ end ∷ after) runs queued first)
      ∙ run-terminates before after end turns t (omega (arith, enough)) runs refl goes_on ends
