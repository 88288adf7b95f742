-- ===== src/Rpc/Mock/Spares.antt =====
-- rpc/solana/mock: the methods of the mock node that leave its machine as it is.
pub mod Helpers
pub mod Methods
pub mod Effects
use text.Mathlib.Text.{◌==◌ as str_eq}
use noir_sidecar.Prelude.{
  ℕ, ◌≡◌, refl, ap, ◌∙◌, String, Bool, true, false, Option, none, some, List, [], ◌∷◌, arith,
  if◌then◌else◌,
}
use noir_sidecar.Prelude.Result.{Result, ok, err}
use noir_sidecar.Sdk.{Bytes, Pubkey, Account, RpcFilterType}
use noir_sidecar.Rpc.{RpcResult}
use noir_sidecar.Rpc.Crates.{Crates}
use noir_sidecar.Rpc.Mock.{
  MockCrates, Mock, continue, ◌>>=◌, pure, lift, send_params, execute, search_keys,
}
use noir_sidecar.Rpc.Mock.Methods.{get_account, get_accounts, get_mock_hash_and_slot, get_timestamp}
use noir_sidecar.Rpc.Mock.Searches.{Waits, BincodeLaws}
use noir_sidecar.Rpc.Mock.Svm.{SvmTask, Vm, Bincode, Formats, run, turn, dispatch}

module _ {V : Type 0} where
  -- The task waits again, with the machine that it had.
  pub record Spared (s t : SvmTask V) : Type 0 where
    pub waits : Waits t
    pub same : t.svm ≡ s.svm

  unfoldable pub Spares : {A : Type 0} → Mock V A → Type 0
  Spares m = (s : SvmTask V) → Waits s → Spared s (m s).1

  continue-Spared :
      {A B : Type 0} (f : A → Mock V B) (s : SvmTask V) (o : RpcResult A × SvmTask V)
      → Spared s o.1
      → ((a : A) → Spares (f a))
      → Spared s (continue o f).1
  unfolding Spares
  continue-Spared f s (ok a, t) first next =
      let rest = next a t first.waits in
      record { waits = rest.waits; same = rest.same ∙ first.same }
  continue-Spared f s (err e, t) first next = first

  pub >>=-Spares :
      {A B : Type 0} (m : Mock V A) (f : A → Mock V B)
      → Spares m
      → ((a : A) → Spares (f a))
      → Spares (m >>= f)
  unfolding Spares
  >>=-Spares m f first next s w = continue-Spared f s (m s) (first s w) next

  pub if-Spares :
      {A : Type 0} (b : Bool) (m n : Mock V A) → Spares m → Spares n → Spares (if b then m else n)
  if-Spares true m n first second = first
  if-Spares false m n first second = second

module _ (V : Type 0) where
  pub pure-Spares : {A : Type 0} (a : A) → Spares (pure {V = V} a)
  unfolding Spares
  pure-Spares a s w = record { waits = w; same = refl }

  pub lift-Spares : {A : Type 0} (r : RpcResult A) → Spares (lift {V = V} r)
  unfolding Spares
  lift-Spares r s w = record { waits = w; same = refl }

module _ (mock_crates : MockCrates) {V : Type 0} (vm : Vm V) (formats : Formats)
    (crates : Crates) where
  -- A request that the machine answers as it is.
  abbrev Reading : String → Type 0
  Reading method =
      (str_eq method "terminateSvm" ≡ false)
      × ((params : Bytes) (v : V) → (dispatch vm formats method params v).1 ≡ v)

  send_params-Spared :
      {O : Type 0} (output : Bincode O) (method : String) (written : Result String Bytes)
      (s : SvmTask V)
      → Reading method
      → Waits s
      → Spared s (send_params mock_crates vm formats crates output method written s).1
  unfolding send_params run turn
  send_params-Spared output method (err x) s reading w = record { waits = w; same = refl }
  send_params-Spared output method (ok bytes) s (goes_on, reads) w =
      let same' = reads bytes s.svm in
      record {
        waits = record {
          runs = ground (arith, goes_on, w.runs, w.empty);
          empty = ground (arith, goes_on, w.runs, w.empty);
        };
        same = ground (arith, goes_on, same', w.runs, w.empty);
      }

  pub execute-Spares :
      {I O : Type 0} (input : Bincode I) (output : Bincode O) (method : String) (i : I)
      → Reading method
      → Spares (execute mock_crates vm formats crates input output method i)
  unfolding execute Spares
  execute-Spares input output method i reading s w =
      send_params-Spared output method (input.serialize i) s reading w

  pub get_account-Reading : Reading "getAccount"
  unfolding dispatch
  get_account-Reading = (refl, λ params v. refl)

  pub get_accounts-Reading : Reading "getAccounts"
  unfolding dispatch
  get_accounts-Reading = (refl, λ params v. refl)

  pub get_balance-Reading : Reading "getBalance"
  unfolding dispatch
  get_balance-Reading = (refl, λ params v. refl)

  pub get_transactions-Reading : Reading "getTransactions"
  unfolding dispatch
  get_transactions-Reading = (refl, λ params v. refl)

  pub latest_blockhash-Reading : Reading "latestBlockhash"
  unfolding dispatch
  latest_blockhash-Reading = (refl, λ params v. refl)

  -- Steps that ask the machine for nothing.
  pub continue_quiet :
      {A B : Type 0} (f : A → Mock V B) (o : RpcResult A × SvmTask V)
      → ((a : A) (t : SvmTask V) → (f a t).1 ≡ t)
      → (continue o f).1 ≡ o.1
  continue_quiet f (ok a, t) quiet = quiet a t
  continue_quiet f (err e, t) quiet = refl

  pub execute_writes :
      {I O : Type 0} (input : Bincode I) (output : Bincode O) (method : String) (i : I)
      (change : I → V → V) (s : SvmTask V)
      → BincodeLaws input
      → str_eq method "terminateSvm" ≡ false
      → ((params : Bytes) (v : V)
          → input.deserialize params ≡ ok i
          → (dispatch vm formats method params v).1 ≡ change i v)
      → Waits s
      → (execute mock_crates vm formats crates input output method i s).1.svm ≡ change i s.svm
  unfolding execute send_params run turn
  execute_writes input output method i change s laws goes_on changes w =
      let (bytes, written, read) = laws.reads i in
      let changed = changes bytes s.svm read in
      ground (arith, written, goes_on, changed, w.runs, w.empty)
