-- ===== src/System/Mock/Exits.antt =====
-- main.rs with the feature mock: when the process exits.
use noir_sidecar.Prelude.{
  ◌<◌, ◌≡◌, refl, Occurs, sym, subst, inl, inr, true, false, List, [], ◌∷◌, length, All, arith,
}
use noir_sidecar.Rpc.Mock.Svm.{Vm, Formats}
use noir_sidecar.System.Mock.{
  MockProcess, MockStep, call, svm_turn, sigterm, ctrl_c, server_returns, new_process, step, steps,
  exits,
}
use noir_sidecar.System.Mock.Undisturbed.{is_ctrl_c, steps-Undisturbed}
use noir_sidecar.System.Mock.Asked.{turns_in, steps-Asked, ctrl_c-Asked}

module _ {V : Type 0} (vm : Vm V) (formats : Formats) where
  -- A server that has returned stays down.
  steps_down :
      (es : List MockStep) (p : MockProcess V)
      → p.serving ≡ false
      → (steps vm formats es p).serving ≡ false
  unfolding steps step
  steps_down [] p down = down
  steps_down (call method params id ∷ es) p down =
      steps_down es (step vm formats (call method params id) p) (ground (arith, down))
  steps_down (svm_turn ∷ es) p down = steps_down es (step vm formats svm_turn p) down
  steps_down (sigterm ∷ es) p down = steps_down es (step vm formats sigterm p) down
  steps_down (ctrl_c ∷ es) p down = steps_down es (step vm formats ctrl_c p) down
  steps_down (server_returns ∷ es) p down =
      steps_down es (step vm formats server_returns p) (ground (arith, down))

  step_stops :
      (e : MockStep) (p : MockProcess V) → p.stopping ≡ true → (step vm formats e p).stopping ≡ true
  unfolding step
  step_stops (call method params id) p stops = ground (arith, stops)
  step_stops svm_turn p stops = stops
  step_stops sigterm p stops = refl
  step_stops ctrl_c p stops = refl
  step_stops server_returns p stops = ground (arith, stops)

  return_downs :
      (p : MockProcess V) → p.stopping ≡ true → (step vm formats server_returns p).serving ≡ false
  unfolding step
  return_downs p stops = ground (arith, stops)

  -- A server that has been told to shut down is down once it returns.
  steps_stop :
      (es : List MockStep) (p : MockProcess V)
      → p.stopping ≡ true
      → Occurs (λ e. e ≡ server_returns) es
      → (steps vm formats es p).serving ≡ false
  unfolding steps
  steps_stop [] p stops o = absurd o
  steps_stop (e ∷ es) p stops (inl same) =
      subst (λ x. (steps vm formats es (step vm formats x p)).serving ≡ false) (sym same)
        (steps_down es (step vm formats server_returns p) (return_downs p stops))
  steps_stop (e ∷ es) p stops (inr later) =
      steps_stop es (step vm formats e p) (step_stops e p stops) later

  ctrl_c_stops : (p : MockProcess V) → (step vm formats ctrl_c p).stopping ≡ true
  unfolding step
  ctrl_c_stops p = refl

  -- Without a Ctrl-C the process does not exit, whatever else happens, a SIGTERM and the return of
  -- the server included. After a Ctrl-C it has exited as soon as the server has returned and the
  -- machine has had more turns than there were requests in its channel, whatever else happens in
  -- between.
  pub exits-steps :
      (before later : List MockStep) (v : V)
      → All (λ e. is_ctrl_c e ≡ false) before
      → length (steps vm formats before (new_process v)).svm.queue < turns_in later
      → Occurs (λ e. e ≡ server_returns) later
      → (exits (steps vm formats before (new_process v)) ≡ false)
        × (exits (
              steps vm formats later
                (step vm formats ctrl_c (steps vm formats before (new_process v))))
            ≡ true)
  exits-steps before later v all enough returns =
      let p = steps vm formats before (new_process v) in
      let u =
        steps-Undisturbed vm formats before (new_process v) all
          (record { goes_on = (refl, tt); waits = refl }) in
      let (runs, quiet) = u.goes_on in
      let ended =
        steps-Asked vm formats later p.svm.queue (step vm formats ctrl_c p)
          (ctrl_c-Asked vm formats p u) enough in
      let down = steps_stop later (step vm formats ctrl_c p) (ctrl_c_stops p) returns in
      (ground (arith, runs), ground (arith, ended, down))
