-- ===== src/System/Mock/Asked.antt =====
-- main.rs with the feature mock: the machine after a Ctrl-C.
use mathlib.Core.List.{append_assoc}
use noir_sidecar.Prelude.{
  ℕ, suc, ◌<◌, ◌≡◌, refl, ap, ◌∙◌, inl, inr, Bool-cases, true, false, List, [], ◌∷◌, ◌++◌, length,
  All, arith,
}
use noir_sidecar.Sdk.{Bytes}
use noir_sidecar.Rpc.Mock.Svm.{SvmRequest, SvmTask, Vm, Formats, turn}
use noir_sidecar.Rpc.Mock.Ends.{terminates, turn_serves, turn_ends}
use noir_sidecar.System.Mock.{
  SvmMethod, terminate_svm, MockProcess, MockStep, call, svm_turn, sigterm, ctrl_c, server_returns,
  send_svm, step, steps,
}
use noir_sidecar.System.Mock.Undisturbed.{Undisturbed}

abbrev pub turns_in : List MockStep → ℕ
turns_in [] = 0
turns_in (svm_turn ∷ es) = suc (turns_in es)
turns_in (e ∷ es) = turns_in es

module _ {V : Type 0} (vm : Vm V) (formats : Formats) where
  -- A machine that has ended takes no request and makes no turn.
  step_ended :
      (e : MockStep) (p : MockProcess V)
      → p.svm.running ≡ false
      → (step vm formats e p).svm.running ≡ false
  unfolding step turn
  step_ended (call method params id) p ended = ground (arith, ended)
  step_ended svm_turn p ended = ground (arith, ended)
  step_ended sigterm p ended = ended
  step_ended ctrl_c p ended = ground (arith, ended)
  step_ended server_returns p ended = ground (arith, ended)

  steps_ended :
      (es : List MockStep) (p : MockProcess V)
      → p.svm.running ≡ false
      → (steps vm formats es p).svm.running ≡ false
  unfolding steps
  steps_ended [] p ended = ended
  steps_ended (e ∷ es) p ended = steps_ended es (step vm formats e p) (step_ended e p ended)

  -- The spawned task has sent its request, which stands in the channel behind `ahead`.
  pub record Asked (ahead : List SvmRequest) (p : MockProcess V) : Type 0 where
    pub rest : List SvmRequest
    pub runs : p.svm.running ≡ true
    pub queued : p.svm.queue ≡ ahead ++ terminate_svm ∷ rest
    pub quiet : All (λ r. terminates r ≡ false) ahead
    pub sent : p.listens ≡ false

  call-Asked :
      (r : SvmRequest) (ahead : List SvmRequest) (s : SvmTask V) (rest : List SvmRequest)
      → s.running ≡ true
      → s.queue ≡ ahead ++ terminate_svm ∷ rest
      → send_svm r s ≡ record s { queue = ahead ++ terminate_svm ∷ (rest ++ r ∷ []) }
  call-Asked r ahead s rest runs queued =
      let appended : send_svm r s ≡ record s { queue = s.queue ++ r ∷ [] } = rw runs refl in
      appended
      ∙ ap {A = List SvmRequest} {B = SvmTask V} (λ q. record s { queue = q })
          (ap (λ q. q ++ r ∷ []) queued ∙ append_assoc ahead (terminate_svm ∷ rest) (r ∷ []))

  call_kept-Asked :
      (method : SvmMethod) (params : Bytes) (id : ℕ) (ahead : List SvmRequest) (p : MockProcess V)
      → Asked ahead p
      → Asked ahead (step vm formats (call method params id) p)
  unfolding step
  call_kept-Asked method params id ahead p a = elim (Bool-cases p.serving) [
    | inl serves ↦
        let e = call-Asked _ ahead p.svm a.rest a.runs a.queued in
        rw serves (record {
          rest = a.rest ++ _ ∷ [];
          runs = ap (λ s. s.running) e ∙ a.runs;
          queued = ap (λ s. s.queue) e;
          quiet = a.quiet;
          sent = a.sent;
        })
    | inr down ↦
        rw down (record {
          rest = a.rest;
          runs = a.runs;
          queued = a.queued;
          quiet = a.quiet;
          sent = a.sent;
        })
  ]

  returns-Asked :
      (ahead : List SvmRequest) (p : MockProcess V)
      → Asked ahead p
      → Asked ahead (step vm formats server_returns p)
  unfolding step
  returns-Asked ahead p a = record {
    rest = a.rest;
    runs = ground (arith, a.runs);
    queued = ground (arith, a.queued);
    quiet = elim (Bool-cases p.stopping) [ inl stops ↦ a.quiet | inr stays ↦ a.quiet ];
    sent = ground (arith, a.sent);
  }

  pub steps-Asked :
      (es : List MockStep) (ahead : List SvmRequest) (p : MockProcess V)
      → Asked ahead p
      → length ahead < turns_in es
      → (steps vm formats es p).svm.running ≡ false
  unfolding steps step
  steps-Asked [] ahead p a enough = absurd (omega (arith, enough))
  steps-Asked (call method params id ∷ es) ahead p a enough =
      steps-Asked es ahead (step vm formats (call method params id) p)
        (call_kept-Asked method params id ahead p a) enough
  steps-Asked (svm_turn ∷ es) [] p a enough =
      steps_ended es (step vm formats svm_turn p)
        (ap (λ s. s.running) (turn_ends vm formats p.svm terminate_svm a.rest a.runs a.queued refl))
  steps-Asked (svm_turn ∷ es) (r ∷ ahead) p a enough =
      let (first, others) = a.quiet in
      let e =
        turn_serves vm formats p.svm r (ahead ++ terminate_svm ∷ a.rest) a.runs a.queued first in
      steps-Asked es ahead (step vm formats svm_turn p)
        (record {
          rest = a.rest;
          runs = ap (λ s. s.running) e ∙ a.runs;
          queued = ap (λ s. s.queue) e;
          quiet = others;
          sent = a.sent;
        })
        (omega (arith, enough))
  steps-Asked (sigterm ∷ es) ahead p a enough =
      steps-Asked es ahead (step vm formats sigterm p)
        (record { rest = a.rest; runs = a.runs; queued = a.queued; quiet = a.quiet; sent = a.sent })
        enough
  steps-Asked (ctrl_c ∷ es) ahead p a enough =
      steps-Asked es ahead (step vm formats ctrl_c p)
        (record {
          rest = a.rest;
          runs = rw a.sent a.runs;
          queued = rw a.sent a.queued;
          quiet = a.quiet;
          sent = refl;
        })
        enough
  steps-Asked (server_returns ∷ es) ahead p a enough =
      steps-Asked es ahead (step vm formats server_returns p) (returns-Asked ahead p a) enough

  pub ctrl_c-Asked :
      (p : MockProcess V) → Undisturbed p → Asked p.svm.queue (step vm formats ctrl_c p)
  unfolding step
  ctrl_c-Asked p u =
      let (runs, quiet) = u.goes_on in
      record {
        rest = [];
        runs = ground (arith, u.waits, runs);
        queued = rw (u.waits, runs) refl;
        quiet = quiet;
        sent = refl;
      }
