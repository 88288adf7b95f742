-- ===== src/Index/Update/Backends.antt =====
-- db/index/mod.rs, `AccountsIndex::run`, over two implementations of the index.
use noir_sidecar.Prelude.{
  ◌≡◌, refl, ap, sym, subst, ◌∙◌, String, Bool, Option, none, some, List, [], ◌∷◌, arith,
}
use noir_sidecar.Prelude.Result.{Result, ok, err}
use noir_sidecar.Sdk.{Bytes, Pubkey, Account}
use noir_sidecar.Client.{Error as ClientError}
use noir_sidecar.Client.Node.{Node, Outcome, returned, panicked}
use noir_sidecar.Client.Codec.{Codec}
use noir_sidecar.Client.Solana.{get_accounts}
use noir_sidecar.Index.{Error, AccountIndex, Indexer}
use noir_sidecar.Index.Contract.{Implements, View, contains_key}
use noir_sidecar.Index.Update.{
  TokenCrates, present, after_fetch, update_index, on_pubkeys, on_message, run,
}
use noir_sidecar.Index.Update.Entries.{insert_until_known, entries_of}
use noir_sidecar.Index.Update.Excluded.{kept}
use noir_sidecar.Index.Update.Insertion.{is_ok, index_accounts-Leaves}

-- Whether a message was handled: none when the worker panics.
abbrev succeeds : Outcome Error (Unit {0}) → Option Bool
succeeds (returned r) = some (is_ok r)
succeeds panicked = none

module _ {S T : Type 0} (crates : TokenCrates) (codec : Codec) (exclude_keys : List Pubkey)
    (left : Indexer S) (IsValid : S → Type 0) (view : View S)
    (left_contract : Implements left IsValid view) (right : Indexer T) (IsValid' : T → Type 0)
    (view' : View T) (right_contract : Implements right IsValid' view') where
  -- Two valid indices with the same entries.
  pub record Agree (s : S) (t : T) : Type 0 where
    pub valid : IsValid s
    pub valid' : IsValid' t
    pub entries : view s ≡ view' t

  -- The ends of one message: both panic or neither does, they leave the same node, and they fail or
  -- succeed together, an error of an engine being its own.
  record EndAlike (x : Outcome Error (Unit {0}) × Node × S)
      (y : Outcome Error (Unit {0}) × Node × T) : Type 0 where
    alike : succeeds x.0 ≡ succeeds y.0
    node : x.1 ≡ y.1
    agree : Agree x.2 y.2

  -- The answers of the two to the same search.
  pub record FindAlike (s : S) (t : T) (i : AccountIndex) (k : Pubkey) (sort_results : Bool)
      : Type 0 where
    pub found : List Pubkey
    pub found' : List Pubkey
    pub answers : left.get_indexed_keys i k sort_results s ≡ (ok found, s)
    pub answers' : right.get_indexed_keys i k sort_results t ≡ (ok found', t)
    pub same : (x : Pubkey) → contains_key x found ≡ contains_key x found'

  pub Agree-FindAlike :
      (s : S) (t : T) (i : AccountIndex) (k : Pubkey) (sort_results : Bool)
      → Agree s t
      → FindAlike s t i k sort_results
  Agree-FindAlike s t i k sort_results a =
      let (found, answers, lists) = left_contract.lookup i k sort_results s a.valid in
      let (found', answers', lists') = right_contract.lookup i k sort_results t a.valid' in
      record {
        found = found;
        found' = found';
        answers = answers;
        answers' = answers';
        same = λ x. lists x ∙ ap (λ v. v i k x) a.entries ∙ sym (lists' x);
      }

  after_fetch-EndAlike :
      (o : Outcome ClientError (List (Pubkey × Option Account)) × Node) (s : S) (t : T)
      → Agree s t
      → EndAlike (after_fetch crates left codec o s) (after_fetch crates right codec o t)
  unfolding after_fetch
  after_fetch-EndAlike (returned (ok rs), n) s t a =
      let es = entries_of crates (present rs) in
      let (valid, grown, all_new) =
        index_accounts-Leaves crates left IsValid view left_contract (present rs) s a.valid in
      let (valid', grown', all_new') =
        index_accounts-Leaves crates right IsValid' view' right_contract (present rs) t a.valid' in
      record {
        alike = ap some (all_new ∙ ap (λ v. (insert_until_known es v).1) a.entries ∙ sym all_new');
        node = refl;
        agree = record {
          valid = valid;
          valid' = valid';
          entries = grown ∙ ap (λ v. (insert_until_known es v).0) a.entries ∙ sym grown';
        };
      }
  after_fetch-EndAlike (returned (err e), n) s t a = record { alike = refl; node = refl; agree = a }
  after_fetch-EndAlike (panicked, n) s t a = record { alike = refl; node = refl; agree = a }

  on_pubkeys-EndAlike :
      (r : Result String (List Pubkey)) (n : Node) (s : S) (t : T)
      → Agree s t
      → EndAlike
          (on_pubkeys crates left codec exclude_keys r n s)
          (on_pubkeys crates right codec exclude_keys r n t)
  unfolding on_pubkeys update_index
  on_pubkeys-EndAlike (ok pubkeys) n s t a =
      after_fetch-EndAlike (get_accounts codec (kept exclude_keys pubkeys) none n) s t a
  on_pubkeys-EndAlike (err e) n s t a = record { alike = refl; node = refl; agree = a }

  on_message-EndAlike :
      (m : Bytes) (n : Node) (s : S) (t : T)
      → Agree s t
      → EndAlike
          (on_message crates left codec exclude_keys m n s)
          (on_message crates right codec exclude_keys m n t)
  unfolding on_message
  on_message-EndAlike m n s t a = on_pubkeys-EndAlike (crates.decode_pubkeys m) n s t a

  -- Two runs of the worker that leave the same node and the same entries.
  pub record RunAlike (x : Node × S) (y : Node × T) : Type 0 where
    pub node : x.0 ≡ y.0
    pub agree : Agree x.1 y.1

  go_on :
      (o o' : Outcome Error (Unit {0})) (x rest : Node × S) (y rest' : Node × T)
      → succeeds o ≡ succeeds o'
      → RunAlike x y
      → RunAlike rest rest'
      → RunAlike
          (elim o as (λ _. Node × S) [ returned r ↦ rest | panicked ↦ x ])
          (elim o' as (λ _. Node × T) [ returned r ↦ rest' | panicked ↦ y ])
  go_on (returned r) (returned r') x rest y rest' same here later = later
  go_on panicked panicked x rest y rest' same here later = here
  go_on (returned r) panicked x rest y rest' same here later = absurd (ground (arith, same))
  go_on panicked (returned r') x rest y rest' same here later = absurd (ground (arith, same))

  pub run-RunAlike :
      (ms : List Bytes) (n : Node) (s : S) (t : T)
      → Agree s t
      → RunAlike
          (run crates left codec exclude_keys ms n s)
          (run crates right codec exclude_keys ms n t)
  unfolding run
  run-RunAlike [] n s t a = record { node = refl; agree = a }
  run-RunAlike (m ∷ ms) n s t a =
      let x = on_message crates left codec exclude_keys m n s in
      let y = on_message crates right codec exclude_keys m n t in
      let step = on_message-EndAlike m n s t a in
      go_on x.0 y.0 (x.1, x.2) (run crates left codec exclude_keys ms x.1 x.2) (y.1, y.2)
        (run crates right codec exclude_keys ms y.1 y.2) step.alike
        (record { node = step.node; agree = step.agree })
        (subst
          (λ w.
            RunAlike (run crates left codec exclude_keys ms x.1 x.2)
              (run crates right codec exclude_keys ms w y.2))
          step.node (run-RunAlike ms x.1 x.2 y.2 step.agree))
