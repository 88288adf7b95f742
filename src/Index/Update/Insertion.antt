-- ===== src/Index/Update/Insertion.antt =====
-- db/index/mod.rs, `update_index`: the loop over the accounts against the abstract index.
use mathlib.Core.Path.{fun_ext, ap₂}
use noir_sidecar.Prelude.{
  ◌≡◌, refl, ap, sym, ◌∙◌, subst, String, Bool, true, false, List, [], ◌∷◌, ◌++◌, Bool-cases, inl,
  inr,
}
use noir_sidecar.Prelude.Result.{Result, ok, err}
use noir_sidecar.Sdk.{Pubkey, Account}
use noir_sidecar.Index.{
  Error, program_id, spl_token_mint, spl_token_owner, Exec, ◌>>◌, pure, continue, Indexer,
}
use noir_sidecar.Index.Contract.{Implements, View}
use noir_sidecar.Index.Update.{
  TokenCrates, TokenAccount, insert_token, unpacked, index_account, index_accounts,
}
use noir_sidecar.Index.Update.Entries.{
  Entry, EntrySet, add, insert_until_known, token_entries, unpacked_entries, account_entries,
  entries_of,
}

abbrev pub is_ok : {A : Type 0} → Result Error A → Bool
is_ok (ok a) = true
is_ok (err e) = false

module _ {S : Type 0} where
  continue_assoc :
      (o : Result Error (Unit {0}) × S) (k l : Exec S (Unit {0}))
      → continue (continue o (λ _. k)) (λ _. l) ≡ continue o (λ _. k >> l)
  continue_assoc (ok u, s) k l = refl
  continue_assoc (err e, s) k l = refl

  then_assoc : (m k l : Exec S (Unit {0})) → (m >> k >> l) ≡ (m >> (k >> l))
  then_assoc m k l = fun_ext λ s. continue_assoc (m s) k l

  continue-pure : (o : Result Error (Unit {0}) × S) → continue o (λ _. pure tt) ≡ o
  continue-pure (ok u, s) = refl
  continue-pure (err e, s) = refl

  then-pure : (m : Exec S (Unit {0})) → (m >> pure tt) ≡ m
  then-pure m = fun_ext λ s. continue-pure (m s)

module _ {S : Type 0} (crates : TokenCrates) (indexer : Indexer S) where
  insert_entry : Entry → Exec S (Unit {0})
  insert_entry e = indexer.insert_index e.index e.key e.indexed

  insert_entries : List Entry → Exec S (Unit {0})
  insert_entries [] = pure tt
  insert_entries (e ∷ es) = insert_entry e >> insert_entries es

  insert_entries-append :
      (xs ys : List Entry) → insert_entries (xs ++ ys) ≡ (insert_entries xs >> insert_entries ys)
  unfolding insert_entries
  insert_entries-append [] ys = refl
  insert_entries-append (x ∷ xs) ys =
      ap (λ k. insert_entry x >> k) (insert_entries-append xs ys)
      ∙ sym (then_assoc (insert_entry x) (insert_entries xs) (insert_entries ys))

  insert_token-entries :
      (pubkey : Pubkey) (account : Account) (token : TokenAccount)
      → insert_token crates indexer pubkey account token
        ≡ insert_entries (token_entries pubkey account token)
  unfolding insert_token insert_entries insert_entry
  insert_token-entries pubkey account token =
      ap
        (λ k.
          indexer.insert_index program_id account.owner pubkey
          >> (indexer.insert_index spl_token_owner token.owner pubkey >> k))
        (sym (then-pure (indexer.insert_index spl_token_mint token.mint pubkey)))

  unpacked-entries :
      (pubkey : Pubkey) (account : Account) (r : Result String TokenAccount)
      → unpacked crates indexer pubkey account r
        ≡ insert_entries (unpacked_entries pubkey account r)
  unfolding unpacked insert_entries
  unpacked-entries pubkey account (ok token) = insert_token-entries pubkey account token
  unpacked-entries pubkey account (err e) = refl

  index_account-entries :
      (a : Pubkey × Account)
      → index_account crates indexer a ≡ insert_entries (account_entries crates a)
  unfolding index_account
  index_account-entries (pubkey, account) =
      elim (Bool-cases (crates.is_known_spl_token_id account.owner)) [
        | inl known ↦ rw known (unpacked-entries pubkey account (crates.unpack account.contents))
        | inr other ↦ rw other (unfold insert_entries in refl)
      ]

  -- The loop is the insertion of the entries, one after the other.
  index_accounts-entries :
      (as' : List (Pubkey × Account))
      → index_accounts crates indexer as' ≡ insert_entries (entries_of crates as')
  unfolding index_accounts
  index_accounts-entries [] = unfold insert_entries in refl
  index_accounts-entries (a ∷ as') =
      ap₂ (λ m k. m >> k) (index_account-entries a) (index_accounts-entries as')
      ∙ sym (insert_entries-append (account_entries crates a) (entries_of crates as'))

  module _ (IsValid : S → Type 0) (view : View S) (contract : Implements indexer IsValid view) where
    -- What a run leaves: the abstract set, and success exactly when every entry was new.
    abbrev pub Leaves : List Entry → EntrySet → Result Error (Unit {0}) × S → Type 0
    Leaves es v x =
        IsValid x.1
        × (view x.1 ≡ (insert_until_known es v).0)
        × (is_ok x.0 ≡ (insert_until_known es v).1)

    insert_entries-Leaves :
        (es : List Entry) (s : S) → IsValid s → Leaves es (view s) (insert_entries es s)
    unfolding insert_entries insert_entry insert_until_known
    insert_entries-Leaves [] s valid = (valid, refl, refl)
    insert_entries-Leaves (e ∷ es) s valid = elim (Bool-cases (view s e.index e.key e.indexed)) [
      | inl known ↦
          let (x, run) = contract.insert_known e.index e.key e.indexed s valid known in
          rw (run, known) (valid, refl, refl)
      | inr new ↦
          let (t, run, valid', adds) = contract.insert_new e.index e.key e.indexed s valid new in
          let grown : view t ≡ add e (view s) = fun_ext λ j. fun_ext λ l. fun_ext λ y. adds j l y in
          rw (run, new)
            (subst (λ v. Leaves es v (insert_entries es t)) grown
              (insert_entries-Leaves es t valid'))
    ]

    -- Over any index that keeps the contract, the loop of `update_index` inserts the program, owner
    -- and mint entries of the token accounts, in order, up to the first entry that the index has
    -- already: there it fails, and nothing after that entry is indexed. It succeeds when all are new.
    pub index_accounts-Leaves :
        (accounts : List (Pubkey × Account)) (s : S)
        → IsValid s
        → Leaves (entries_of crates accounts) (view s) (index_accounts crates indexer accounts s)
    index_accounts-Leaves accounts s valid =
        rw (index_accounts-entries accounts)
          (insert_entries-Leaves (entries_of crates accounts) s valid)

    -- If the first account is a token account that the index lists under its program already, the
    -- loop fails at once and leaves the index as it was: none of the later accounts is indexed.
    pub index_accounts-known :
        (pubkey : Pubkey) (account : Account) (token : TokenAccount)
        (rest : List (Pubkey × Account)) (s : S)
        → IsValid s
        → crates.is_known_spl_token_id account.owner ≡ true
        → crates.unpack account.contents ≡ ok token
        → view s program_id account.owner pubkey ≡ true
        → (e : Error) × (index_accounts crates indexer ((pubkey, account) ∷ rest) s ≡ (err e, s))
    unfolding index_accounts index_account
    index_accounts-known pubkey account token rest s valid known unpacks listed =
        let (e, failed) = contract.insert_known program_id account.owner pubkey s valid listed in
        (e, rw (known, unpacks, failed))
