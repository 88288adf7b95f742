-- ===== src/Rpc/Mock.antt =====
-- rpc/solana/mock/mod.rs: how the mock node asks its machine, and its search of program accounts.
pub mod Svm
pub mod Searches
pub mod Methods
pub mod Accounts
pub mod Tokens
pub mod Encoded
pub mod Search
pub mod Spares
pub mod Ends
mod Tests
use noir_sidecar.Prelude.{
  ℕ, String, Bool, true, false, ◌&&◌, Option, none, some, List, [], ◌∷◌, ◌++◌, all, length,
  unwrap_or, ◌==◌, if◌then◌else◌,
}
use noir_sidecar.Prelude.Result.{Result, ok, err, map_err}
use noir_sidecar.Sdk.{
  Bytes, Pubkey, Account, Memcmp, RpcFilterType, data_size, memcmp, token_account_state,
}
use noir_sidecar.Client.Served.{answer_of}
use noir_sidecar.Index.{AccountIndex}
use noir_sidecar.Rpc.{RpcResult}
use noir_sidecar.Rpc.Crates.{Crates}
use noir_sidecar.Rpc.Verify.{internal_error}
use noir_sidecar.Rpc.Filters.{optimize_filters}
use noir_sidecar.Rpc.Mock.Svm.{SvmError, SvmResult, SvmRequest, SvmTask, Vm, Bincode, Formats, run}

-- `Memcmp::bytes_match`, `token::Account::valid_account_data`, the debug text of an error, and
-- `bs58::encode`.
pub record MockCrates : Type 0 where
  pub bytes_match : Memcmp → Bytes → Bool
  pub valid_account_data : Bytes → Bool
  pub debug_svm_error : SvmError → String
  pub bs58_encode : Bytes → String

-- The index of the mock, a hash map.
abbrev pub MockIndex : Type 0
MockIndex = AccountIndex → Pubkey → Option (List Pubkey)

-- `MockSolana::new` gives it the empty map, and nothing fills it.
abbrev pub new_index : MockIndex
new_index index key = none

abbrev pub get_indexed_keys : MockIndex → AccountIndex → Pubkey → List Pubkey
get_indexed_keys accounts_index index index_key = unwrap_or [] (accounts_index index index_key)

-- A method of the mock node, over the task of its machine.
abbrev pub Mock : Type 0 → Type 0 → Type 0
Mock V A = SvmTask V → RpcResult A × SvmTask V

module _ {V A B : Type 0} where
  abbrev pub continue : RpcResult A × SvmTask V → (A → Mock V B) → RpcResult B × SvmTask V
  continue (ok a, s) f = f a s
  continue (err e, s) f = (err e, s)

  infixl 5 ◌>>=◌
  abbrev pub ◌>>=◌ : Mock V A → (A → Mock V B) → Mock V B
  ◌>>=◌ m f s = continue (m s) f

abbrev pub pure : {V A : Type 0} → A → Mock V A
pure a s = (ok a, s)

-- `?` on a result.
abbrev pub lift : {V A : Type 0} → RpcResult A → Mock V A
lift r s = (r, s)

module _ (mock_crates : MockCrates) where
  abbrev pub filter_allows : RpcFilterType → Account → Bool
  filter_allows (data_size size) account = length account.contents == size
  filter_allows (memcmp compare) account = mock_crates.bytes_match compare account.contents
  filter_allows token_account_state account = mock_crates.valid_account_data account.contents

  -- The accounts of the program that every filter allows, as the loop pushes them.
  abbrev pub push :
      Pubkey
      → List RpcFilterType
      → Pubkey
      → Option Account
      → List (Pubkey × Account)
      → List (Pubkey × Account)
  push program_id filters index_key none accounts = accounts
  push program_id filters index_key (some account) accounts =
      if account.owner == program_id
        && all (λ filter_type. filter_allows filter_type account) filters
      then (index_key, account) ∷ accounts
      else accounts

  module _ {V : Type 0} (vm : Vm V) (formats : Formats) (crates : Crates) where
    -- `.map_err(|e| internal_error(..))`.
    failed : {A : Type 0} → Result String A → RpcResult A
    failed r = map_err (λ e. internal_error crates (some e)) r

    read_answer : {O : Type 0} → Bincode O → Option SvmResult → RpcResult O
    unfolding failed
    read_answer output none = err (internal_error crates (some "RecvError(())"))
    read_answer output (some (err e)) =
        err (internal_error crates (some (mock_crates.debug_svm_error e)))
    read_answer output (some (ok bytes)) = failed (output.deserialize bytes)

    awaited : {O : Type 0} → Bincode O → ℕ → SvmTask V → RpcResult O × SvmTask V
    unfolding read_answer failed
    awaited output id s = (read_answer output (answer_of id s.answers), s)

    -- The request is sent, and the task serves what is in its channel; a task that has ended has
    -- closed it.
    send_request : {O : Type 0} → Bincode O → SvmRequest → Mock V O
    unfolding awaited read_answer failed
    send_request output r s =
        let queue = s.queue ++ r ∷ [] in
        if s.running
        then awaited output (length s.answers)
            (run vm formats (length queue) (record s { queue = queue }))
        else (err (internal_error crates (some "SendError")), s)

    unfoldable pub send_params : {O : Type 0} → Bincode O → String → Result String Bytes → Mock V O
    unfolding send_request
    send_params output method (ok bytes) s =
        send_request output
          (record { method = method; params = bytes; response = some (length s.answers) }) s
    send_params output method (err e) s = (err (internal_error crates (some e)), s)

    unfoldable pub execute : {I O : Type 0} → Bincode I → Bincode O → String → I → Mock V O
    unfolding send_params send_request awaited read_answer failed
    execute input output method params s = send_params output method (input.serialize params) s

    -- The loop over the indexed keys.
    unfoldable pub search_keys :
        Pubkey → List RpcFilterType → List Pubkey → Mock V (List (Pubkey × Account))
    search_keys program_id filters [] = pure []
    search_keys program_id filters (index_key ∷ keys) = do
      account ← execute formats.pubkey formats.account "getAccount" index_key
      accounts ← search_keys program_id filters keys
      pure (push program_id filters index_key account accounts)

    unfoldable pub get_filtered_indexed_accounts :
        Pubkey → List Pubkey → List RpcFilterType → Mock V (List (Pubkey × Account))
    get_filtered_indexed_accounts program_id indexed_keys filters =
        search_keys program_id (optimize_filters crates filters) indexed_keys
