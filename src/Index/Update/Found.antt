-- ===== src/Index/Update/Found.antt =====
-- db/index/mod.rs, `update_index` : the entries of an account that
-- the worker has handled.
use noir_sidecar.Prelude.{
  ◌≡◌, refl, ap, sym, ◌∙◌, subst, true, Option, none, some, List, [], ◌∷◌, ◌++◌, arith, Bool-cases,
  inl, inr, Occurs, All,
}
use noir_sidecar.Prelude.Result.{Result, ok}
use noir_sidecar.Sdk.{Bytes, Pubkey, Account}
use noir_sidecar.Client.Node.{Node, returned}
use noir_sidecar.Client.Codec.{Codec}
use noir_sidecar.Client.Solana.{get_accounts}
use noir_sidecar.Index.Update.Excluded.{kept}
use noir_sidecar.Index.{AccountIndex, program_id, spl_token_mint, spl_token_owner, Indexer}
use noir_sidecar.Index.Contract.{Implements, View, same_index}
use noir_sidecar.Index.Update.{
  TokenCrates, TokenAccount, present, index_accounts, after_fetch, update_index, on_pubkeys,
  on_message,
}
use noir_sidecar.Index.Update.Entries.{
  Entry, EntrySet, add, insert_until_known, token_entries, account_entries, entries_of,
}
use noir_sidecar.Index.Update.Insertion.{is_ok, index_accounts-Leaves}

returned-inj : {E A : Type 0} {r r' : Result E A} → returned r ≡ returned r' → r ≡ r'
returned-inj e = ground arith

same_index_self : (i : AccountIndex) → same_index i i ≡ true
same_index_self program_id = refl
same_index_self spl_token_mint = refl
same_index_self spl_token_owner = refl

-- An entry stands in a set.
abbrev pub In : EntrySet → Entry → Type 0
In v e = v e.index e.key e.indexed ≡ true

add-In : (e : Entry) (v : EntrySet) → In (add e v) e
add-In e v = ground (arith, same_index_self e.index)

In-add : (e f : Entry) (v : EntrySet) → In v f → In (add e v) f
In-add e f v h = ground (arith, h)

pub In-insert_until_known :
    (es : List Entry) (v : EntrySet) (f : Entry) → In v f → In (insert_until_known es v).0 f
unfolding insert_until_known
In-insert_until_known [] v f h = h
In-insert_until_known (e ∷ es) v f h = elim (Bool-cases (v e.index e.key e.indexed)) [
  | inl known ↦ rw known h
  | inr new ↦ rw new (In-insert_until_known es (add e v) f (In-add e f v h))
]

-- When every entry was new, all of them are in the set afterwards.
All-In :
    (es : List Entry) (v : EntrySet)
    → (insert_until_known es v).1 ≡ true
    → All (In (insert_until_known es v).0) es
unfolding insert_until_known
All-In [] v h = tt
All-In (e ∷ es) v h = elim (Bool-cases (v e.index e.key e.indexed)) [
  | inl known ↦ absurd (ground (arith, known))
  | inr new ↦
      let goes_on : insert_until_known (e ∷ es) v ≡ insert_until_known es (add e v) = rw new refl in
      subst (λ w. All (In w.0) (e ∷ es)) (sym goes_on)
        (
          In-insert_until_known es (add e v) e (add-In e v),
          All-In es (add e v) (ap (λ w. w.1) (sym goes_on) ∙ h),
        )
]

All-left : (v : EntrySet) (xs ys : List Entry) → All (In v) (xs ++ ys) → All (In v) xs
All-left v [] ys h = tt
All-left v (x ∷ xs) ys (h, hs) = (h, All-left v xs ys hs)

All-right : (v : EntrySet) (xs ys : List Entry) → All (In v) (xs ++ ys) → All (In v) ys
All-right v [] ys h = h
All-right v (x ∷ xs) ys (h, hs) = All-right v xs ys hs

-- The account is one of a token program, and its data unpack.
pub record IsToken (crates : TokenCrates) (account : Account) (token : TokenAccount) : Type 0 where
  pub known : crates.is_known_spl_token_id account.owner ≡ true
  pub unpacks : crates.unpack account.contents ≡ ok token

module _ (crates : TokenCrates) (pubkey : Pubkey) (account : Account) (token : TokenAccount)
    (is_token : IsToken crates account token) where
  account_entries-token :
      account_entries crates (pubkey, account) ≡ token_entries pubkey account token
  account_entries-token = rw (is_token.known, is_token.unpacks) refl

  token_entries-In :
      (v : EntrySet) (accounts : List (Pubkey × Account))
      → Occurs (λ a. a ≡ (pubkey, account)) accounts
      → All (In v) (entries_of crates accounts)
      → All (In v) (token_entries pubkey account token)
  token_entries-In v [] o h = absurd o
  token_entries-In v (a ∷ as') (inl e) h =
      subst (All (In v)) (ap (account_entries crates) e ∙ account_entries-token)
        (All-left v (account_entries crates a) (entries_of crates as') h)
  token_entries-In v (a ∷ as') (inr o) h =
      token_entries-In v as' o (All-right v (account_entries crates a) (entries_of crates as') h)

  module _ {S : Type 0} (indexer : Indexer S) (IsValid : S → Type 0) (view : View S)
      (contract : Implements indexer IsValid view) where
    index_accounts-In :
        (accounts : List (Pubkey × Account)) (s : S)
        → IsValid s
        → Occurs (λ a. a ≡ (pubkey, account)) accounts
        → (index_accounts crates indexer accounts s).0 ≡ ok tt
        → IsValid (index_accounts crates indexer accounts s).1
          × All
              (In (view (index_accounts crates indexer accounts s).1))
              (token_entries pubkey account token)
    index_accounts-In accounts s valid occurs succeeds =
        let (valid', grown, all_new) =
          index_accounts-Leaves crates indexer IsValid view contract accounts s valid in
        (
          valid',
          subst (λ v. All (In v) (token_entries pubkey account token)) (sym grown)
              (token_entries-In (insert_until_known (entries_of crates accounts) (view s)).0
                accounts occurs
                (All-In (entries_of crates accounts) (view s) (sym all_new ∙ ap is_ok succeeds))),
        )

    present-Occurs :
        (rs : List (Pubkey × Option Account))
        → Occurs (λ r. r ≡ (pubkey, some account)) rs
        → Occurs (λ a. a ≡ (pubkey, account)) (present rs)
    present-Occurs [] o = o
    present-Occurs ((k, none) ∷ rs) (inl e) = absurd (ground (arith, e))
    present-Occurs ((k, none) ∷ rs) (inr o) = present-Occurs rs o
    present-Occurs ((k, some a) ∷ rs) (inl e) = inl (ground (arith, e))
    present-Occurs ((k, some a) ∷ rs) (inr o) = inr (present-Occurs rs o)

    module _ (codec : Codec) (exclude_keys : List Pubkey) where
      pub on_message-In :
          (m : Bytes) (pubkeys : List Pubkey) (rs : List (Pubkey × Option Account)) (n n' : Node)
          (s t : S)
          → IsValid s
          → crates.decode_pubkeys m ≡ ok pubkeys
          → get_accounts codec (kept exclude_keys pubkeys) none n ≡ (returned (ok rs), n')
          → Occurs (λ r. r ≡ (pubkey, some account)) rs
          → on_message crates indexer codec exclude_keys m n s ≡ (returned (ok tt), n', t)
          → IsValid t × All (In (view t)) (token_entries pubkey account token)
      unfolding on_message on_pubkeys update_index after_fetch
      on_message-In m pubkeys rs n n' s t valid decoded fetched occurs handled =
          let (r, t') = index_accounts crates indexer (present rs) s in
          let done : (returned r, n', t') ≡ (returned (ok tt), n', t) =
            rw (decoded, fetched) at handled in
          subst (λ u. IsValid u × All (In (view u)) (token_entries pubkey account token))
            (ap (λ o. o.2) done)
            (index_accounts-In (present rs) s valid (present-Occurs rs occurs)
              (returned-inj (ap (λ o. o.0) done)))
