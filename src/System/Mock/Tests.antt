-- ===== src/System/Mock/Tests.antt =====
-- main.rs with the feature mock: a request, a SIGTERM and a Ctrl-C on a machine that counts.
use noir_sidecar.Prelude.{ℕ, ◌≡◌, refl, true, false, none, List, [], ◌∷◌, inl, inr, arith}
use noir_sidecar.Prelude.Result.{err}
use noir_sidecar.Rpc.Mock.Svm.{Vm, Bincode, Formats}
use noir_sidecar.System.Mock.{
  get_balance, MockStep, call, svm_turn, sigterm, ctrl_c, server_returns, new_process, step, steps,
  exits,
}
use noir_sidecar.System.Mock.Exits.{exits-steps}

abbrev machine : Vm ℕ
machine = record {
  get_account = λ key v. none;
  airdrop = λ key lamports v. (err "failed", v);
  get_balance = λ key v. none;
  send_transaction = λ tx v. (err "failed", v);
  get_transaction = λ signature v. none;
  latest_blockhash = λ v. v;
  simulate_transaction = λ tx v. err "failed";
}

-- A format that can spell nothing.
abbrev nothing : {A : Type 0} → Bincode A
nothing = record { serialize = λ a. err "no format"; deserialize = λ bytes. err "no format" }

abbrev formats : Formats
formats = record {
  pubkey = nothing;
  pubkeys = nothing;
  airdrop = nothing;
  signatures = nothing;
  transaction = nothing;
  account = nothing;
  accounts = nothing;
  balance = nothing;
  result = nothing;
  results = nothing;
  hash = nothing;
}

abbrev before : List MockStep
before = call get_balance (1 ∷ []) 0 ∷ sigterm ∷ []

abbrev later : List MockStep
later = svm_turn ∷ server_returns ∷ svm_turn ∷ []

exits-steps_example :
    (exits (steps machine formats before (new_process 0)) ≡ false)
    × (exits (
          steps machine formats later
            (step machine formats ctrl_c (steps machine formats before (new_process 0))))
        ≡ true)
unfolding steps step
exits-steps_example =
    exits-steps machine formats before later 0 (refl, (refl, tt)) (omega arith) (inr (inl refl))
