-- ===== src/System/Searches.antt =====
-- main.rs: a token account on its way from an event, through the index, to a search.
use noir_sidecar.Prelude.{
  ◌≡◌, refl, sym, Bool, true, Option, none, some, List, ap, ◌∙◌, subst, Occurs,
}
use noir_sidecar.Prelude.Result.{ok}
use noir_sidecar.Sdk.{Bytes, Pubkey, Account, RpcFilterType}
use noir_sidecar.Client.{Hash}
use noir_sidecar.Client.Node.{Node, returned}
use noir_sidecar.Client.Codec.{Codec}
use noir_sidecar.Client.Solana.{get_accounts, get_filtered_indexed_accounts}
use noir_sidecar.Event.{EventFilter}
use noir_sidecar.Index.{spl_token_mint, spl_token_owner, Indexer}
use noir_sidecar.Index.Contract.{Implements, View, contains_key}
use noir_sidecar.Index.Update.{TokenCrates, TokenAccount, on_message}
use noir_sidecar.Index.Update.Excluded.{kept}
use noir_sidecar.Index.Update.Found.{IsToken, on_message-In}
use noir_sidecar.Index.Update.Grown.{Grows, on_message-Grows}
use noir_sidecar.Rpc.Crates.{Crates}
use noir_sidecar.Rpc.Accounts.{asked}
use noir_sidecar.Rpc.Tokens.{
  IndexLookup, get_indexed_keys, redundant_filters, get_filtered_spl_token_accounts_by_owner,
  get_filtered_spl_token_accounts_by_mint,
}
use noir_sidecar.System.{System, take, Step, listen, work, serve, Reach, here, next}

-- The index as the methods read it, at one state of its database.
abbrev pub lookup_of : {S : Type 0} → Indexer S → S → IndexLookup
lookup_of indexer s index key sort_results = (indexer.get_indexed_keys index key sort_results s).0

module _ {S : Type 0} (crates : TokenCrates) (indexer : Indexer S) (codec : Codec)
    (exclude_keys : List Pubkey) (filters : List EventFilter) (IsValid : S → Type 0) (view : View S)
    (contract : Implements indexer IsValid view) where
  Step-Grows :
      {s u : System S}
      → Step crates indexer codec exclude_keys filters s u
      → IsValid s.database
      → Grows crates indexer codec IsValid view contract s.database u.database
  unfolding take
  Step-Grows (listen t _) valid = (valid, λ i k x listed. listed)
  Step-Grows {s} (work m ms _ _) valid =
      on_message-Grows crates indexer codec IsValid view contract exclude_keys m s.node s.database
        valid
  Step-Grows (serve n) valid = (valid, λ i k x listed. listed)

  Reach-Grows :
      {s u : System S}
      → IsValid s.database
      → Reach crates indexer codec exclude_keys filters s u
      → Grows crates indexer codec IsValid view contract s.database u.database
  Reach-Grows valid here = (valid, λ i k x listed. listed)
  Reach-Grows valid (next r step) =
      let (valid', kept') = Reach-Grows valid r in
      let (valid'', kept'') = Step-Grows step valid' in
      (valid'', λ i k x listed. kept'' i k x (kept' i k x listed))

  module _ (rpc : Crates) where
    -- The search by owner, over the index `t`, asks the node for the account.
    abbrev pub AsksByOwner : S → Pubkey → Pubkey → Type 0
    AsksByOwner t owner pubkey =
        (program : Pubkey) (given : List RpcFilterType) (sort_results : Bool) (at_hash : Hash)
        (n : Node)
        → (found : List Pubkey) × (contains_key pubkey found ≡ true)
          × (get_filtered_spl_token_accounts_by_owner rpc (lookup_of indexer t) codec program owner
                given sort_results at_hash n
              ≡ asked rpc
                  (get_filtered_indexed_accounts codec program found
                    (redundant_filters rpc rpc.spl_token_account_owner_offset owner given)
                    (some at_hash))
                  n)

    -- The same for the search by mint.
    abbrev pub AsksByMint : S → Pubkey → Pubkey → Type 0
    AsksByMint t mint pubkey =
        (program : Pubkey) (given : List RpcFilterType) (sort_results : Bool) (at_hash : Hash)
        (n : Node)
        → (found : List Pubkey) × (contains_key pubkey found ≡ true)
          × (get_filtered_spl_token_accounts_by_mint rpc (lookup_of indexer t) codec program mint
                given sort_results at_hash n
              ≡ asked rpc
                  (get_filtered_indexed_accounts codec program found
                    (redundant_filters rpc rpc.spl_token_account_mint_offset mint given)
                    (some at_hash))
                  n)

    listed-AsksByOwner :
        (t : S) (owner pubkey : Pubkey)
        → IsValid t
        → view t spl_token_owner owner pubkey ≡ true
        → AsksByOwner t owner pubkey
    unfolding get_filtered_spl_token_accounts_by_owner get_indexed_keys
    listed-AsksByOwner t owner pubkey valid listed program given sort_results at_hash n =
        let (found, answer, same) = contract.lookup spl_token_owner owner sort_results t valid in
        (found, same pubkey ∙ listed, rw (lookup_of, answer) refl)

    listed-AsksByMint :
        (t : S) (mint pubkey : Pubkey)
        → IsValid t
        → view t spl_token_mint mint pubkey ≡ true
        → AsksByMint t mint pubkey
    unfolding get_filtered_spl_token_accounts_by_mint get_indexed_keys
    listed-AsksByMint t mint pubkey valid listed program given sort_results at_hash n =
        let (found, answer, same) = contract.lookup spl_token_mint mint sort_results t valid in
        (found, same pubkey ∙ listed, rw (lookup_of, answer) refl)

    -- The message decodes to some keys, the node has the account among those that are not excluded,
    -- and the worker handles the message without an error.
    pub record Handles (m : Bytes) (pubkey : Pubkey) (account : Account) (s : System S)
        : Type 0 where
      pub pubkeys : List Pubkey
      pub answered : List (Pubkey × Option Account)
      pub after : Node
      pub index : S
      pub decoded : crates.decode_pubkeys m ≡ ok pubkeys
      pub fetched :
          get_accounts codec (kept exclude_keys pubkeys) none s.node
          ≡ (returned (ok answered), after)
      pub occurs : Occurs (λ r. r ≡ (pubkey, some account)) answered
      pub indexes :
          on_message crates indexer codec exclude_keys m s.node s.database
          ≡ (returned (ok tt), after, index)

    -- What the index lists, from then on, for the two keys of the account.
    pub take_lists :
        (m : Bytes) (pubkey : Pubkey) (account : Account) (token : TokenAccount) (s : System S)
        → IsToken crates account token
        → IsValid s.database
        → Handles m pubkey account s
        → {u : System S}
        → Reach crates indexer codec exclude_keys filters
            (take crates indexer codec exclude_keys m s)
            u
        → IsValid u.database
          × (view u.database spl_token_owner token.owner pubkey ≡ true)
          × (view u.database spl_token_mint token.mint pubkey ≡ true)
    unfolding take
    take_lists m pubkey account token s is_token valid h {u} reach =
        let (valid', entries) =
          on_message-In crates pubkey account token is_token indexer IsValid view contract codec
            exclude_keys m h.pubkeys h.answered s.node h.after s.database h.index valid h.decoded
            h.fetched h.occurs h.indexes in
        let database : h.index ≡ (take crates indexer codec exclude_keys m s).database =
          ap (λ o. o.2) (sym h.indexes) in
        let (valid'', grown) = Reach-Grows (subst IsValid database valid') reach in
        (
          valid'',
          grown spl_token_owner token.owner pubkey
              (subst (λ t. view t spl_token_owner token.owner pubkey ≡ true) database entries.1.0),
          grown spl_token_mint token.mint pubkey
              (subst (λ t. view t spl_token_mint token.mint pubkey ≡ true) database entries.1.1.0),
        )

    -- Once the worker has handled a message that names a token account of the node, without an error
    -- and over a valid index, then in every order of the later steps the search by the account's owner
    -- and the search by its mint ask the node for it.
    pub take-Asks :
        (m : Bytes) (pubkey : Pubkey) (account : Account) (token : TokenAccount) (s : System S)
        → IsToken crates account token
        → IsValid s.database
        → Handles m pubkey account s
        → {u : System S}
        → Reach crates indexer codec exclude_keys filters
            (take crates indexer codec exclude_keys m s)
            u
        → AsksByOwner u.database token.owner pubkey × AsksByMint u.database token.mint pubkey
    unfolding take
    take-Asks m pubkey account token s is_token valid h {u} reach =
        let (valid', by_owner, by_mint) =
          take_lists m pubkey account token s is_token valid h reach in
        (
          listed-AsksByOwner u.database token.owner pubkey valid' by_owner,
          listed-AsksByMint u.database token.mint pubkey valid' by_mint,
        )
