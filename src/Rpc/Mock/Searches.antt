-- ===== src/Rpc/Mock/Searches.antt =====
-- rpc/solana/mock: what the search of the mock node finds.
use noir_sidecar.Prelude.{
  ◌≡◌, refl, ap, ◌∙◌, subst, ◌&&◌, true, Option, none, some, List, [], ◌∷◌, all, length, ◌==◌,
  arith, filter_map, if◌then◌else◌, String,
}
use noir_sidecar.Prelude.Result.{Result, ok, err}
use noir_sidecar.Sdk.{
  Bytes, Pubkey, Account, Memcmp, RpcFilterType, data_size, memcmp, token_account_state,
}
use noir_sidecar.Rpc.{ErrorObject}
use noir_sidecar.Rpc.Crates.{Crates}
use noir_sidecar.Rpc.Filters.{optimize_filters}
use noir_sidecar.Rpc.Mock.{
  MockCrates, filter_allows, push, execute, Mock, continue, search_keys,
  get_filtered_indexed_accounts,
}
use noir_sidecar.Rpc.Mock.Svm.{SvmTask, Vm, Bincode, Formats, run, turn, dispatch}

-- bincode reads back what it writes.
pub record BincodeLaws {A : Type 0} (format : Bincode A) : Type 0 where
  pub reads :
      (a : A)
      → (bytes : Bytes) × (format.serialize a ≡ ok bytes) × (format.deserialize bytes ≡ ok a)

-- Decoding the bytes of a filter does not change what it matches.
pub record ConversionLaws (mock_crates : MockCrates) (crates : Crates) : Type 0 where
  pub converts :
      (m raw : Memcmp)
      → crates.convert_to_raw_bytes m ≡ ok raw
      → (bytes : Bytes) → mock_crates.bytes_match raw bytes ≡ mock_crates.bytes_match m bytes

-- The task runs and waits for the next request.
pub record Waits {V : Type 0} (s : SvmTask V) : Type 0 where
  pub runs : s.running ≡ true
  pub empty : s.queue ≡ []

-- An account of the program that every filter allows, with its key.
abbrev pub filtered :
    MockCrates → Pubkey → List RpcFilterType → Pubkey → Option Account → Option (Pubkey × Account)
filtered mock_crates program filters key none = none
filtered mock_crates program filters key (some account) =
    if account.owner == program && all (λ f. filter_allows mock_crates f account) filters
    then some (key, account)
    else none

module _ (mock_crates : MockCrates) {V : Type 0} (vm : Vm V) (formats : Formats) (crates : Crates)
    (pubkeys : BincodeLaws formats.pubkey) (accounts : BincodeLaws formats.account) where
  -- What a read of the machine does to its task.
  pub record Reads {A : Type 0} (a : A) (s : SvmTask V) (o : Result ErrorObject A × SvmTask V)
      : Type 0 where
    pub returns : o.0 ≡ ok a
    pub waits : Waits o.1
    pub same : o.1.svm ≡ s.svm

  execute-Reads :
      (key : Pubkey) (s : SvmTask V)
      → Waits s
      → Reads
          (vm.get_account key s.svm)
          s
          (execute mock_crates vm formats crates formats.pubkey formats.account "getAccount" key s)
  unfolding execute run turn dispatch
  execute-Reads key s w =
      let (bytes, written, read) = pubkeys.reads key in
      let (answer, written', read') = accounts.reads (vm.get_account key s.svm) in
      record {
        returns = ground (arith, written, read, written', read', w.runs, w.empty);
        waits = record {
          runs = ground (arith, written, read, written', read', w.runs, w.empty);
          empty = ground (arith, written, read, written', read', w.runs, w.empty);
        };
        same = ground (arith, written, read, written', read', w.runs, w.empty);
      }

  -- The accounts of the keys that exist, are of the program and pass the filters, in order.
  abbrev pub found : Pubkey → List RpcFilterType → List Pubkey → V → List (Pubkey × Account)
  found program filters keys v =
      filter_map (λ key. filtered mock_crates program filters key (vm.get_account key v)) keys

  push-found :
      (program : Pubkey) (filters : List RpcFilterType) (key : Pubkey) (keys : List Pubkey) (v : V)
      → push mock_crates program filters key (vm.get_account key v) (found program filters keys v)
        ≡ found program filters (key ∷ keys) v
  push-found program filters key keys v = ground arith

  continue-Reads :
      {A B : Type 0} (a : A) (b : B) (s : SvmTask V) (o : Result ErrorObject A × SvmTask V)
      (f : A → Mock V B)
      → Reads a s o
      → Reads b o.1 (f a o.1)
      → Reads b s (continue o f)
  continue-Reads a b s (err e, t) f first next = absurd (ground (arith, first.returns))
  continue-Reads a b s (ok x, t) f first next =
      let e : a ≡ x = ground (arith, first.returns) in
      subst (λ y. Reads b s (f y t)) e
        (record { returns = next.returns; waits = next.waits; same = next.same ∙ first.same })

  search_keys-Reads :
      (program : Pubkey) (filters : List RpcFilterType) (keys : List Pubkey) (s : SvmTask V)
      → Waits s
      → Reads
          (found program filters keys s.svm)
          s
          (search_keys mock_crates vm formats crates program filters keys s)
  unfolding search_keys
  search_keys-Reads program filters [] s w = record { returns = refl; waits = w; same = refl }
  search_keys-Reads program filters (key ∷ keys) s w =
      let account = vm.get_account key s.svm in
      let first = execute-Reads key s w in
      let t =
        (execute mock_crates vm formats crates formats.pubkey formats.account "getAccount" key
          s).1 in
      let rest = search_keys-Reads program filters keys t first.waits in
      let pushed =
        push mock_crates program filters key account (found program filters keys t.svm) in
      let pushes : pushed ≡ found program filters (key ∷ keys) s.svm =
        ap (λ v. push mock_crates program filters key account (found program filters keys v))
          first.same
        ∙ push-found program filters key keys s.svm in
      subst
        (λ l. Reads l s (search_keys mock_crates vm formats crates program filters (key ∷ keys) s))
        pushes
        (continue-Reads account pushed s _ _ first (
          continue-Reads (found program filters keys t.svm) pushed t _ _ rest
            (record { returns = refl; waits = rest.waits; same = refl })))

  module _ (conversions : ConversionLaws mock_crates crates) where
    memcmp-allows :
        (m : Memcmp) (r : Result String Memcmp) (account : Account) (filters : List RpcFilterType)
        → crates.convert_to_raw_bytes m ≡ r
        → all (λ f. filter_allows mock_crates f account) (optimize_filters crates filters)
          ≡ all (λ f. filter_allows mock_crates f account) filters
        → all
            (λ f. filter_allows mock_crates f account)
            (optimize_filters crates (memcmp m ∷ filters))
          ≡ all (λ f. filter_allows mock_crates f account) (memcmp m ∷ filters)
    unfolding optimize_filters
    memcmp-allows m (ok raw) account filters e rest =
        rw (e, conversions.converts m raw e account.contents, rest) refl
    memcmp-allows m (err x) account filters e rest = rw (e, rest) refl

    all-optimize_filters :
        (filters : List RpcFilterType) (account : Account)
        → all (λ f. filter_allows mock_crates f account) (optimize_filters crates filters)
          ≡ all (λ f. filter_allows mock_crates f account) filters
    unfolding optimize_filters
    all-optimize_filters [] account = refl
    all-optimize_filters (data_size size ∷ filters) account =
        ap (λ b. length account.contents == size && b) (all-optimize_filters filters account)
    all-optimize_filters (memcmp m ∷ filters) account =
        memcmp-allows m (crates.convert_to_raw_bytes m) account filters refl
          (all-optimize_filters filters account)
    all-optimize_filters (token_account_state ∷ filters) account =
        ap (λ b. mock_crates.valid_account_data account.contents && b)
          (all-optimize_filters filters account)

    filtered-optimize_filters :
        (program : Pubkey) (filters : List RpcFilterType) (key : Pubkey) (account : Option Account)
        → filtered mock_crates program (optimize_filters crates filters) key account
          ≡ filtered mock_crates program filters key account
    filtered-optimize_filters program filters key none = refl
    filtered-optimize_filters program filters key (some account) =
        rw (all-optimize_filters filters account) refl

    found-optimize_filters :
        (program : Pubkey) (filters : List RpcFilterType) (keys : List Pubkey) (v : V)
        → found program (optimize_filters crates filters) keys v ≡ found program filters keys v
    found-optimize_filters program filters [] v = refl
    found-optimize_filters program filters (key ∷ keys) v =
        rw
          (
            filtered-optimize_filters program filters key (vm.get_account key v),
            found-optimize_filters program filters keys v,
          )
          refl

    -- Over a task of the machine that waits for requests, the search of the mock node answers, leaves
    -- the machine as it is and the task waiting, and returns, for the indexed keys in order, the
    -- accounts that exist, are owned by the program and pass every filter.
    pub get_filtered_indexed_accounts-Reads :
        (program : Pubkey) (keys : List Pubkey) (filters : List RpcFilterType) (s : SvmTask V)
        → Waits s
        → Reads
            (found program filters keys s.svm)
            s
            (get_filtered_indexed_accounts mock_crates vm formats crates program keys filters s)
    unfolding get_filtered_indexed_accounts
    get_filtered_indexed_accounts-Reads program keys filters s w =
        subst
          (λ l. Reads l s (
            search_keys mock_crates vm formats crates program (optimize_filters crates filters) keys
              s))
          (found-optimize_filters program filters keys s.svm)
          (search_keys-Reads program (optimize_filters crates filters) keys s w)
