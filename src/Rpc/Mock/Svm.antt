-- ===== src/Rpc/Mock/Svm.antt =====
-- rpc/solana/mock/svm.rs: the task that owns the virtual machine of the mock node, and the requests
-- that it serves.
use Prim.Native.String
use text.Mathlib.Text.{◌==◌ as str_eq}
use noir_sidecar.Prelude.{
  ℕ, zero, suc, String, Bool, false, Option, none, some, List, [], ◌∷◌, map, if◌then◌else◌,
}
use noir_sidecar.Prelude.Result.{Result, ok, err, map_err, ◌>>=◌}
use noir_sidecar.Sdk.{Bytes, Pubkey, Signature, Account, VersionedTransaction}
use noir_sidecar.Client.{Hash}

-- The payload of `parse_error` is a foreign error, kept as its debug text.
pub data SvmError : Type 0 where
  parse_error : String → SvmError
  decode_error : String → SvmError
  other : String → SvmError

abbrev pub SvmResult : Type 0
SvmResult = Result SvmError Bytes

-- `response` names the oneshot channel of the caller that waits, if one does.
pub record SvmRequest : Type 0 where
  pub method : String
  pub params : Bytes
  pub response : Option ℕ

-- What `litesvm` tells of a transaction: its signature, and the rest unread.
abbrev pub TransactionResult : Type 0
TransactionResult = Result String (Signature × String)

-- `litesvm`, on a machine of state `V`.
pub record Vm (V : Type 0) : Type 0 where
  pub get_account : Pubkey → V → Option Account
  pub airdrop : Pubkey → ℕ → V → TransactionResult × V
  pub get_balance : Pubkey → V → Option ℕ
  pub send_transaction : VersionedTransaction → V → TransactionResult × V
  pub get_transaction : Signature → V → Option TransactionResult
  pub latest_blockhash : V → Hash
  pub simulate_transaction : VersionedTransaction → V → TransactionResult

-- `solana_bincode`, at one type.
pub record Bincode (A : Type 0) : Type 0 where
  pub serialize : A → Result String Bytes
  pub deserialize : Bytes → Result String A

pub record Formats : Type 0 where
  pub pubkey : Bincode Pubkey
  pub pubkeys : Bincode (List Pubkey)
  pub airdrop : Bincode (Pubkey × ℕ)
  pub signatures : Bincode (List Signature)
  pub transaction : Bincode VersionedTransaction
  pub account : Bincode (Option Account)
  pub accounts : Bincode (List (Pubkey × Option Account))
  pub balance : Bincode (Option ℕ)
  pub result : Bincode TransactionResult
  pub results : Bincode (List (Option TransactionResult))
  pub hash : Bincode Hash

module _ {V : Type 0} (vm : Vm V) (formats : Formats) where
  -- A handler that reads its parameters and changes nothing.
  reading : {I O : Type 0} → Bincode I → Bincode O → (I → V → O) → Bytes → V → SvmResult × V
  reading input output f params v = (
    map_err parse_error (input.deserialize params) >>= λ i.
        map_err parse_error (output.serialize (f i v)),
    v,
  )

  written : {O : Type 0} → Bincode O → O × V → SvmResult × V
  written output (o, v) = (map_err parse_error (output.serialize o), v)

  -- A handler that changes the machine once its parameters are read, whether or not its result can
  -- be serialized.
  write_with : {I O : Type 0} → Bincode O → (I → V → O × V) → Result String I → V → SvmResult × V
  unfolding written
  write_with output f (ok i) v = written output (f i v)
  write_with output f (err e) v = (err (parse_error e), v)

  get_account : Bytes → V → SvmResult × V
  unfolding reading
  get_account params v = reading formats.pubkey formats.account vm.get_account params v

  get_accounts : Bytes → V → SvmResult × V
  unfolding reading
  get_accounts params v =
      reading formats.pubkeys formats.accounts
        (λ pubkeys w. map (λ pubkey. (pubkey, vm.get_account pubkey w)) pubkeys) params v

  request_airdrop : Bytes → V → SvmResult × V
  unfolding write_with
  request_airdrop params v =
      write_with formats.result (λ i w. vm.airdrop i.0 i.1 w) (formats.airdrop.deserialize params) v

  get_balance : Bytes → V → SvmResult × V
  unfolding reading
  get_balance params v = reading formats.pubkey formats.balance vm.get_balance params v

  send_transaction : Bytes → V → SvmResult × V
  unfolding write_with
  send_transaction params v =
      write_with formats.result vm.send_transaction (formats.transaction.deserialize params) v

  get_transactions : Bytes → V → SvmResult × V
  unfolding reading
  get_transactions params v =
      reading formats.signatures formats.results
        (λ signatures w. map (λ signature. vm.get_transaction signature w) signatures) params v

  latest_blockhash : V → SvmResult × V
  latest_blockhash v = (map_err parse_error (formats.hash.serialize (vm.latest_blockhash v)), v)

  simulate_transaction : Bytes → V → SvmResult × V
  unfolding reading
  simulate_transaction params v =
      reading formats.transaction formats.result vm.simulate_transaction params v

  unknown : String → V → SvmResult × V
  unknown method v = (err (other (String.◌++◌ "Unknown method: " method)), v)

  -- The arms of the `match`, without that of `terminateSvm`.
  unfoldable pub dispatch : String → Bytes → V → SvmResult × V
  unfolding get_account get_accounts reading request_airdrop get_balance send_transaction
      get_transactions latest_blockhash simulate_transaction unknown write_with written
  dispatch method params v =
      if str_eq method "getAccount"
      then get_account params v
      else if str_eq method "getAccounts"
      then get_accounts params v
      else if str_eq method "requestAirdrop"
      then request_airdrop params v
      else if str_eq method "getBalance"
      then get_balance params v
      else if str_eq method "sendTransaction"
      then send_transaction params v
      else if str_eq method "getTransactions"
      then get_transactions params v
      else if str_eq method "latestBlockhash"
      then latest_blockhash v
      else if str_eq method "simulateTransaction"
      then simulate_transaction params v
      else unknown method v

-- The task: its machine, its channel, and the answers it has sent, newest first.
pub record SvmTask (V : Type 0) : Type 0 where
  pub svm : V
  pub queue : List SvmRequest
  pub answers : List (ℕ × SvmResult)
  pub running : Bool

-- `response.and_then(|response| response.send(result).ok())`.
abbrev pub respond : Option ℕ → SvmResult → List (ℕ × SvmResult) → List (ℕ × SvmResult)
respond none result answers = answers
respond (some id) result answers = (id, result) ∷ answers

module _ {V : Type 0} (vm : Vm V) (formats : Formats) where
  -- The body of the loop for a message; a caller that no longer waits loses its answer.
  serve : SvmRequest → SvmTask V → SvmTask V
  serve r s =
      let (result, v) = dispatch vm formats r.method r.params s.svm in
      if str_eq r.method "terminateSvm"
      then record s { running = false }
      else record s { svm = v; answers = respond r.response result s.answers }

  take_request : List SvmRequest → SvmTask V → SvmTask V
  unfolding serve
  take_request [] s = s
  take_request (r ∷ rs) s = serve r (record s { queue = rs })

  -- One turn of the loop; a task that has ended makes no more.
  unfoldable pub turn : SvmTask V → SvmTask V
  unfolding take_request serve
  turn s = if s.running then take_request s.queue s else s

  -- `LiteSVM::run`, for a number of turns.
  unfoldable pub run : ℕ → SvmTask V → SvmTask V
  run zero s = s
  run (suc turns) s = run turns (turn s)
