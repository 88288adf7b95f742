-- ===== src/Index/Update/Excluded.antt =====
-- db/index/mod.rs, `AccountsIndex::run`: the worker and the keys in `exclude_keys`.
use noir_sidecar.Prelude.{
  ◌≡◌, refl, ap, sym, ◌∙◌, subst, String, true, false, not, Option, none, some, List, [], ◌∷◌, map,
  filter, ◌==◌, arith, Bool-cases, ==_iff, inl, inr, All, All-append,
}
use noir_sidecar.Prelude.Result.{Result, ok, err}
use noir_sidecar.Sdk.{Bytes, Pubkey, Account}
use noir_sidecar.Client.{Error as ClientError}
use noir_sidecar.Client.Node.{Node, Outcome, returned, panicked}
use noir_sidecar.Client.Codec.{Codec}
use noir_sidecar.Client.Solana.{get_accounts}
use noir_sidecar.Client.Solana.Accounts.{get_accounts-keys}
use noir_sidecar.Index.{Error, AccountIndex, Indexer}
use noir_sidecar.Index.Contract.{Implements, View, contains_key}
use noir_sidecar.Index.Update.{
  TokenCrates, TokenAccount, present, index_accounts, after_fetch, update_index, on_pubkeys,
  on_message, run,
}
use noir_sidecar.Index.Update.Entries.{
  Entry, EntrySet, add, insert_until_known, unpacked_entries, account_entries, entries_of,
}
use noir_sidecar.Index.Update.Insertion.{index_accounts-Leaves}

abbrev Avoids : Pubkey → Pubkey → Type 0
Avoids x k = (k == x) ≡ false

insert_until_known_other :
    (x : Pubkey) (es : List Entry) (v : EntrySet) (j : AccountIndex) (l : Pubkey)
    → All (λ e. Avoids x e.indexed) es
    → (insert_until_known es v).0 j l x ≡ v j l x
unfolding insert_until_known
insert_until_known_other x [] v j l h = refl
insert_until_known_other x (e ∷ es) v j l (h, hs) = elim (Bool-cases (v e.index e.key e.indexed)) [
  | inl known ↦ rw known refl
  | inr new ↦ rw new (insert_until_known_other x es (add e v) j l hs ∙ ground (arith, h))
]

module _ (crates : TokenCrates) where
  unpacked_entries-avoid :
      (x pubkey : Pubkey) (account : Account) (r : Result String TokenAccount)
      → Avoids x pubkey
      → All (λ e. Avoids x e.indexed) (unpacked_entries pubkey account r)
  unpacked_entries-avoid x pubkey account (ok token) h = (h, (h, (h, tt)))
  unpacked_entries-avoid x pubkey account (err e) h = tt

  account_entries-avoid :
      (x pubkey : Pubkey) (account : Account)
      → Avoids x pubkey
      → All (λ e. Avoids x e.indexed) (account_entries crates (pubkey, account))
  account_entries-avoid x pubkey account h =
      elim (Bool-cases (crates.is_known_spl_token_id account.owner)) [
        | inl known ↦
            rw known (unpacked_entries-avoid x pubkey account (crates.unpack account.contents) h)
        | inr other ↦ rw other tt
      ]

  entries_of-avoid :
      (x : Pubkey) (as' : List (Pubkey × Account))
      → All (λ a. Avoids x a.0) as'
      → All (λ e. Avoids x e.indexed) (entries_of crates as')
  entries_of-avoid x [] h = tt
  entries_of-avoid x ((pubkey, account) ∷ as') (h, hs) =
      All-append (λ e. Avoids x e.indexed) (account_entries crates (pubkey, account))
        (entries_of crates as') (account_entries-avoid x pubkey account h)
        (entries_of-avoid x as' hs)

present-avoid :
    (x : Pubkey) (rs : List (Pubkey × Option Account))
    → All (Avoids x) (map (λ r. r.0) rs)
    → All (λ a. Avoids x a.0) (present rs)
present-avoid x [] h = tt
present-avoid x ((k, none) ∷ rs) (h, hs) = present-avoid x rs hs
present-avoid x ((k, some account) ∷ rs) (h, hs) = (h, present-avoid x rs hs)

abbrev pub kept : List Pubkey → List Pubkey → List Pubkey
kept exclude_keys pubkeys = filter (λ pubkey. not (contains_key pubkey exclude_keys)) pubkeys

apart :
    (p x : Pubkey) (ks : List Pubkey)
    → contains_key p ks ≡ false
    → contains_key x ks ≡ true
    → (p == x) ≡ false
apart p x ks h k = elim (Bool-cases (p == x)) [
  | inl same ↦ cc (h, k, ap (λ y. contains_key y ks) ((==_iff p x).0 same))
  | inr other ↦ other
]

kept-avoid :
    (x : Pubkey) (exclude_keys pubkeys : List Pubkey)
    → contains_key x exclude_keys ≡ true
    → All (Avoids x) (kept exclude_keys pubkeys)
kept-avoid x exclude_keys [] h = tt
kept-avoid x exclude_keys (p ∷ ps) h = elim (Bool-cases (contains_key p exclude_keys)) [
  | inl dropped ↦ rw dropped (kept-avoid x exclude_keys ps h)
  | inr stays ↦ rw stays (apart p x exclude_keys stays h, kept-avoid x exclude_keys ps h)
]

module _ {S : Type 0} (crates : TokenCrates) (indexer : Indexer S) (codec : Codec)
    (IsValid : S → Type 0) (view : View S) (contract : Implements indexer IsValid view)
    (x : Pubkey) where
  -- The state keeps the index valid, and the entries of `x` as they were.
  abbrev pub Spares : S → S → Type 0
  Spares s t = IsValid t × ((j : AccountIndex) (l : Pubkey) → view t j l x ≡ view s j l x)

  index_accounts-Spares :
      (rs : List (Pubkey × Option Account)) (s : S)
      → All (Avoids x) (map (λ r. r.0) rs)
      → IsValid s
      → Spares s (index_accounts crates indexer (present rs) s).1
  index_accounts-Spares rs s away valid =
      let (valid', grown, _) =
        index_accounts-Leaves crates indexer IsValid view contract (present rs) s valid in
      (
        valid',
        λ j l.
            ap (λ v. v j l x) grown
            ∙ insert_until_known_other x (entries_of crates (present rs)) (view s) j l
                (entries_of-avoid crates x (present rs) (present-avoid x rs away)),
      )

  after_fetch-Spares :
      (o : Outcome ClientError (List (Pubkey × Option Account)) × Node) (s : S)
      → ((rs : List (Pubkey × Option Account))
          → o.0 ≡ returned (ok rs)
          → All (Avoids x) (map (λ r. r.0) rs))
      → IsValid s
      → Spares s (after_fetch crates indexer codec o s).2
  unfolding after_fetch
  after_fetch-Spares (returned (ok rs), n) s away valid =
      index_accounts-Spares rs s (away rs refl) valid
  after_fetch-Spares (returned (err e), n) s away valid = (valid, λ j l. refl)
  after_fetch-Spares (panicked, n) s away valid = (valid, λ j l. refl)

  module _ (exclude_keys : List Pubkey) (excluded : contains_key x exclude_keys ≡ true) where
    on_pubkeys-Spares :
        (r : Result String (List Pubkey)) (n : Node) (s : S)
        → IsValid s
        → Spares s (on_pubkeys crates indexer codec exclude_keys r n s).2
    unfolding on_pubkeys update_index
    on_pubkeys-Spares (ok pubkeys) n s valid =
        after_fetch-Spares (get_accounts codec (kept exclude_keys pubkeys) none n) s
          (λ rs e.
            subst (All (Avoids x))
              (sym (get_accounts-keys codec (kept exclude_keys pubkeys) none n _ rs (paired e)))
              (kept-avoid x exclude_keys pubkeys excluded))
          valid
      where
        paired :
            {o : Outcome ClientError (List (Pubkey × Option Account)) × Node}
            {r : Outcome ClientError (List (Pubkey × Option Account))}
            → o.0 ≡ r
            → o ≡ (r, o.1)
        paired {o} e i = (e i, o.1)
    on_pubkeys-Spares (err e) n s valid = (valid, λ j l. refl)

    pub on_message-Spares :
        (m : Bytes) (n : Node) (s : S)
        → IsValid s
        → Spares s (on_message crates indexer codec exclude_keys m n s).2
    unfolding on_message
    on_message-Spares m n s valid = on_pubkeys-Spares (crates.decode_pubkeys m) n s valid

    -- Whatever messages arrive and whatever the node answers, the worker adds no entry for an
    -- excluded key and removes none, and the index stays valid.
    pub run-Spares :
        (ms : List Bytes) (n : Node) (s : S)
        → IsValid s
        → Spares s (run crates indexer codec exclude_keys ms n s).1
    unfolding run
    run-Spares [] n s valid = (valid, λ j l. refl)
    run-Spares (m ∷ ms) n s valid =
        let (o, n', s') = on_message crates indexer codec exclude_keys m n s in
        let (valid', same) = on_message-Spares m n s valid in
        let (valid'', same') = run-Spares ms n' s' valid' in
        rest-Spares o n' s (run crates indexer codec exclude_keys ms n' s') (valid', same)
          (valid'', λ j l. same' j l ∙ same j l)
      where
        rest-Spares :
            (o : Outcome Error (Unit {0})) (n' : Node) {s' : S} (s : S) (rest : Node × S)
            → Spares s s'
            → Spares s rest.1
            → Spares s (elim o as (λ _. Node × S) [ returned r ↦ rest | panicked ↦ (n', s') ]).1
        rest-Spares (returned r) n' s rest here later = later
        rest-Spares panicked n' s rest here later = here
