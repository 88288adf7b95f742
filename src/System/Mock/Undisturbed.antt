-- ===== src/System/Mock/Undisturbed.antt =====
-- main.rs with the feature mock: the process before a Ctrl-C.
use text.Mathlib.Text.{◌==◌ as str_eq}
use noir_sidecar.Prelude.{
  ◌≡◌, refl, sym, subst, inl, inr, Bool, Bool-cases, true, false, List, [], ◌∷◌, ◌++◌, All,
  All-append, arith,
}
use noir_sidecar.Rpc.Mock.Svm.{SvmRequest, SvmTask, Vm, Formats, turn}
use noir_sidecar.Rpc.Mock.Ends.{terminates, turn_serves}
use noir_sidecar.System.Mock.{
  SvmMethod, name_of, get_account, get_accounts, request_airdrop, get_balance, send_transaction,
  get_transactions, latest_blockhash, MockProcess, MockStep, call, svm_turn, sigterm, ctrl_c,
  server_returns, send_svm, step, steps,
}

abbrev pub is_ctrl_c : MockStep → Bool
is_ctrl_c ctrl_c = true
is_ctrl_c _ = false

names_go_on : (m : SvmMethod) → str_eq (name_of m) "terminateSvm" ≡ false
names_go_on get_account = refl
names_go_on get_accounts = refl
names_go_on request_airdrop = refl
names_go_on get_balance = refl
names_go_on send_transaction = refl
names_go_on get_transactions = refl
names_go_on latest_blockhash = refl

-- The task runs, and nothing in its channel asks it to end.
abbrev pub GoesOn : {V : Type 0} → SvmTask V → Type 0
GoesOn s = (s.running ≡ true) × All (λ r. terminates r ≡ false) s.queue

-- Nothing has asked the machine to end, and the spawned task waits.
pub record Undisturbed {V : Type 0} (p : MockProcess V) : Type 0 where
  pub goes_on : GoesOn p.svm
  pub waits : p.listens ≡ true

send_svm-GoesOn :
    {V : Type 0} (r : SvmRequest) (s : SvmTask V)
    → terminates r ≡ false
    → GoesOn s
    → GoesOn (send_svm r s)
send_svm-GoesOn r s fits (runs, quiet) =
    let e : send_svm r s ≡ record s { queue = s.queue ++ r ∷ [] } = rw runs refl in
    subst GoesOn (sym e)
      (runs, All-append (λ q. terminates q ≡ false) s.queue (r ∷ []) quiet (fits, tt))

module _ {V : Type 0} (vm : Vm V) (formats : Formats) where
  turn-GoesOn :
      (queue : List SvmRequest) (s : SvmTask V)
      → s.queue ≡ queue
      → s.running ≡ true
      → All (λ r. terminates r ≡ false) queue
      → GoesOn (turn vm formats s)
  unfolding turn
  turn-GoesOn [] s queued runs quiet =
      let same : turn vm formats s ≡ s = ground (arith, queued, runs) in
      subst GoesOn (sym same) (runs, subst (All (λ r. terminates r ≡ false)) (sym queued) tt)
  turn-GoesOn (r ∷ rs) s queued runs (first, rest) =
      subst GoesOn (sym (turn_serves vm formats s r rs runs queued first)) (runs, rest)

  step-Undisturbed :
      (e : MockStep) (p : MockProcess V)
      → is_ctrl_c e ≡ false
      → Undisturbed p
      → Undisturbed (step vm formats e p)
  unfolding step
  step-Undisturbed (call method params id) p other u = elim (Bool-cases p.serving) [
    | inl serves ↦ rw serves (record {
      goes_on = send_svm-GoesOn _ p.svm (names_go_on method) u.goes_on;
      waits = u.waits;
    })
    | inr down ↦ rw down (record { goes_on = u.goes_on; waits = u.waits })
  ]
  step-Undisturbed svm_turn p other u =
      let (runs, quiet) = u.goes_on in
      record { goes_on = turn-GoesOn p.svm.queue p.svm refl runs quiet; waits = u.waits }
  step-Undisturbed sigterm p other u = record { goes_on = u.goes_on; waits = u.waits }
  step-Undisturbed ctrl_c p other u = cc
  step-Undisturbed server_returns p other u = elim (Bool-cases p.stopping) [
    | inl stops ↦ rw stops (record { goes_on = u.goes_on; waits = u.waits })
    | inr stays ↦ rw stays (record { goes_on = u.goes_on; waits = u.waits })
  ]

  pub steps-Undisturbed :
      (es : List MockStep) (p : MockProcess V)
      → All (λ e. is_ctrl_c e ≡ false) es
      → Undisturbed p
      → Undisturbed (steps vm formats es p)
  unfolding steps
  steps-Undisturbed [] p all u = u
  steps-Undisturbed (e ∷ es) p (first, rest) u =
      steps-Undisturbed es (step vm formats e p) rest (step-Undisturbed e p first u)
