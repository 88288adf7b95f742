-- ===== src/Rpc/Mock/Tests.antt =====
-- rpc/solana/mock: a search on a machine with one token account.
use noir_sidecar.Prelude.{
  ℕ, zero, suc, ◌+◌, ap, ◌≡◌, refl, String, Bool, true, false, Option, none, some, List, [], ◌∷◌,
  ◌==◌, if◌then◌else◌, arith,
}
use noir_sidecar.Prelude.Result.{Result, ok, err}
use noir_sidecar.Sdk.{
  Bytes, Pubkey, Signature, Account, RpcFilterType, data_size, token_account_state,
  VersionedMessage, VersionedTransaction,
}
use noir_sidecar.Index.Update.Samples.{token}
use noir_sidecar.Rpc.Samples.{sample}
use noir_sidecar.Rpc.Mock.{MockCrates, get_filtered_indexed_accounts}
use noir_sidecar.Rpc.Mock.Searches.{BincodeLaws, Reads, get_filtered_indexed_accounts-Reads}
use noir_sidecar.Rpc.Mock.{new_index}
use noir_sidecar.Rpc.Mock.Encoded.{Fees}
use noir_sidecar.Rpc.Mock.Spares.Effects.{Effects, methods-Effects}
use noir_sidecar.Rpc.Mock.Ends.{run-terminates}
use noir_sidecar.Rpc.Mock.Svm.{SvmRequest, dispatch, run, SvmTask, Vm, Bincode, Formats}

-- The machine adds up what is airdropped; account 10 is the token account.
abbrev machine : Vm ℕ
machine = record {
  get_account = λ key v. if key == 10 then some token else none;
  airdrop = λ key lamports v. (ok (v, ""), v + lamports);
  get_balance = λ key v. some v;
  send_transaction = λ tx v. (err "failed", v);
  get_transaction = λ signature v. none;
  latest_blockhash = λ v. v;
  simulate_transaction = λ tx v. err "failed";
}

-- A format that can spell nothing.
abbrev nothing : {A : Type 0} → Bincode A
nothing = record { serialize = λ a. err "no format"; deserialize = λ bytes. err "no format" }

abbrev read_pubkey : Bytes → Result String Pubkey
read_pubkey (p ∷ []) = ok p
read_pubkey _ = err "length"

abbrev pubkey_format : Bincode Pubkey
pubkey_format = record { serialize = λ p. ok (p ∷ []); deserialize = read_pubkey }

abbrev bit : Bool → ℕ
bit true = 1
bit false = 0

abbrev write_account : Option Account → Bytes
write_account none = []
write_account (some a) = a.lamports ∷ a.owner ∷ bit a.executable ∷ a.rent_epoch ∷ a.contents

abbrev read_account : Bytes → Result String (Option Account)
read_account (l ∷ o ∷ e ∷ r ∷ contents) = ok (
    some (record {
      lamports = l;
      contents = contents;
      owner = o;
      executable = e == 1;
      rent_epoch = r;
    }))
read_account _ = ok none

abbrev account_format : Bincode (Option Account)
account_format = record { serialize = λ a. ok (write_account a); deserialize = read_account }

read_account-write_account : (a : Option Account) → read_account (write_account a) ≡ ok a
read_account-write_account none = refl
read_account-write_account (some a) = ground arith

abbrev read_pair : Bytes → Result String (Pubkey × ℕ)
read_pair (p ∷ n ∷ []) = ok (p, n)
read_pair _ = err "length"

abbrev pair_format : Bincode (Pubkey × ℕ)
pair_format = record { serialize = λ p. ok (p.0 ∷ p.1 ∷ []); deserialize = read_pair }

-- A one stands before each signature, and a zero behind the last.
abbrev write_signatures : List Signature → Bytes → Bytes
write_signatures [] rest = zero ∷ rest
write_signatures (x ∷ xs) rest = 1 ∷ x ∷ write_signatures xs rest

abbrev read_signatures : Bytes → List Signature × Bytes
read_signatures [] = ([], [])
read_signatures (zero ∷ rest) = ([], rest)
read_signatures (suc n ∷ []) = ([], [])
read_signatures (suc n ∷ x ∷ rest) = let r = read_signatures rest in (x ∷ r.0, r.1)

read_signatures-write_signatures :
    (xs : List Signature) (rest : Bytes) → read_signatures (write_signatures xs rest) ≡ (xs, rest)
read_signatures-write_signatures [] rest = refl
read_signatures-write_signatures (x ∷ xs) rest =
    ap (λ r. (x ∷ r.0, r.1)) (read_signatures-write_signatures xs rest)

abbrev write_transaction : VersionedTransaction → Bytes
write_transaction tx =
    write_signatures tx.signatures (tx.message.recent_blockhash ∷ tx.message.body)

abbrev read_message : List Signature × Bytes → Result String VersionedTransaction
read_message (xs, []) = err "length"
read_message (xs, hash ∷ body) =
    ok (record { signatures = xs; message = record { recent_blockhash = hash; body = body } })

abbrev transaction_format : Bincode VersionedTransaction
transaction_format = record {
  serialize = λ tx. ok (write_transaction tx);
  deserialize = λ bytes. read_message (read_signatures bytes);
}

transaction_laws : BincodeLaws transaction_format
transaction_laws = record {
  reads = λ tx. (
    write_transaction tx,
    refl,
    ap read_message (
        read_signatures-write_signatures tx.signatures
          (tx.message.recent_blockhash ∷ tx.message.body)),
  );
}

abbrev formats : Formats
formats = record {
  pubkey = pubkey_format;
  pubkeys = nothing;
  airdrop = pair_format;
  signatures = nothing;
  transaction = transaction_format;
  account = account_format;
  accounts = nothing;
  balance = nothing;
  result = nothing;
  results = nothing;
  hash = nothing;
}

abbrev mock_crates : MockCrates
mock_crates = record {
  bytes_match = λ m bytes. true;
  valid_account_data = λ bytes. true;
  debug_svm_error = λ e. "error";
  bs58_encode = λ bytes. "hash";
}

abbrev idle : SvmTask ℕ
idle = record { svm = 0; queue = []; answers = []; running = true }

abbrev filters : List RpcFilterType
filters = data_size 2 ∷ token_account_state ∷ []

get_filtered_indexed_accounts-Reads_example :
    Reads mock_crates machine formats sample
      (record { reads = λ p. (p ∷ [], refl, refl) })
      (record { reads = λ a. (write_account a, refl, read_account-write_account a) })
      ((10, token) ∷ [])
      idle
      (get_filtered_indexed_accounts mock_crates machine formats sample 6
        (9 ∷ 10 ∷ [])
        filters
        idle)
get_filtered_indexed_accounts-Reads_example =
    get_filtered_indexed_accounts-Reads mock_crates machine formats sample
      (record { reads = λ p. (p ∷ [], refl, refl) })
      (record { reads = λ a. (write_account a, refl, read_account-write_account a) })
      (record { converts = λ m raw e bytes. refl }) 6 (9 ∷ 10 ∷ []) filters idle
      (record { runs = refl; empty = refl })

abbrev asks : String → ℕ → SvmRequest
asks method id = record { method = method; params = 10 ∷ []; response = some id }

abbrev last : SvmRequest
last = record { method = "terminateSvm"; params = []; response = none }

abbrev ending : SvmTask ℕ
ending = record idle { queue = asks "getAccount" 0 ∷ last ∷ asks "getBalance" 1 ∷ [] }

run-terminates_example : run machine formats 3 ending ≡ record ending {
  queue = asks "getBalance" 1 ∷ [];
  running = false;
  svm = 0;
  answers = (0, ok (1 ∷ 6 ∷ 0 ∷ 0 ∷ 20 ∷ 30 ∷ [])) ∷ [];
}
unfolding dispatch
run-terminates_example =
    run-terminates machine formats (asks "getAccount" 0 ∷ []) (asks "getBalance" 1 ∷ []) last 3
      ending (omega arith) refl refl (refl, tt) refl

abbrev free : Fees VersionedMessage VersionedMessage
free = record {
  sanitize_versioned = λ message. ok message;
  sanitize = λ message. ok message;
  calculate_fee = λ message lite signature_fee priority_fee rounding_removed. signature_fee;
  lamports_per_signature = 5000;
  rounding_removed = false;
}

methods-Effects_example :
    Effects mock_crates machine formats sample new_index 1000 nothing free idle
methods-Effects_example =
    methods-Effects mock_crates machine formats sample new_index 1000 nothing
      (record { reads = λ p. (p.0 ∷ p.1 ∷ [], refl, refl) }) transaction_laws free idle
      (record { runs = refl; empty = refl })
