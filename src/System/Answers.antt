-- ===== src/System/Answers.antt =====
-- main.rs: a token account on its way from an event to the answer of a method.
mod Tests
use noir_sidecar.Prelude.{
  ◌≡◌, refl, sym, ap, ◌∙◌, subst, String, Bool, true, false, Option, none, some, List, [], ◌∷◌, map,
  inl, inr, All, Occurs, unwrap_or,
}
use noir_sidecar.Prelude.Result.{Result, ok, err, collect}
use noir_sidecar.Sdk.{Bytes, Pubkey, Account, RpcFilterType, memcmp, token_account_state}
use noir_sidecar.Client.{Hash}
use noir_sidecar.Client.Node.{Node, returned}
use noir_sidecar.Client.Codec.{Codec}
use noir_sidecar.Client.Calls.Replies.{HexLaws}
use noir_sidecar.Client.Served.Reached.{Server}
use noir_sidecar.Client.Views.{Chain, TellsOf, Backs, Gives}
use noir_sidecar.Event.{EventFilter}
use noir_sidecar.Index.{spl_token_owner, Indexer}
use noir_sidecar.Index.Contract.{Implements, View, contains_key}
use noir_sidecar.Index.Update.{TokenCrates, TokenAccount}
use noir_sidecar.Index.Update.Found.{IsToken}
use noir_sidecar.Rpc.Crates.{Crates, base64, UiDataSliceConfig, RpcAccountInfoConfig}
use noir_sidecar.Rpc.Verify.{verify_pubkey, program_text, verify_token_account_filter}
use noir_sidecar.Rpc.Encode.{encode_account}
use noir_sidecar.Rpc.Accounts.{RpcKeyedAccount}
use noir_sidecar.Rpc.Tokens.{redundant_filters, get_indexed_keys}
use noir_sidecar.Rpc.Methods.{RpcResponse}
use noir_sidecar.Rpc.Methods.Search.{encode_all, mint_filters, get_token_accounts_by_owner}
use noir_sidecar.Rpc.Views.{block_of}
use noir_sidecar.Rpc.Views.Searches.{token_accounts_view}
use noir_sidecar.Rpc.Views.Searched.{token_accounts-Gives}
use noir_sidecar.System.{System, take, Reach}
use noir_sidecar.System.Searches.{lookup_of, Handles, take_lists}

module _ (crates : TokenCrates) (rpc : Crates) (chain : Chain) where
  -- What a filter lets through, and what the runtime of the chain finds with filters: no account that
  -- is asked for is left out when it exists, is the program's and passes. An account that unpacks as a
  -- token account is in a valid state and has the key of its owner at the owner's offset.
  pub record Finds (allows : RpcFilterType → Account → Bool) : Type 0 where
    pub finds :
        (h : Hash) (program_id key : Pubkey) (account : Account) (keys : List Pubkey)
        (filters : List RpcFilterType)
        → contains_key key keys ≡ true
        → chain.account h key ≡ some account
        → account.owner ≡ program_id
        → All (λ f. allows f account ≡ true) filters
        → Occurs (λ p. p ≡ (key, account)) (chain.search h program_id keys filters)
    pub in_state :
        (account : Account) (token : TokenAccount)
        → IsToken crates account token
        → allows token_account_state account ≡ true
    pub has_owner :
        (account : Account) (token : TokenAccount)
        → IsToken crates account token
        → allows
            (memcmp (
              rpc.new_raw_bytes rpc.spl_token_account_owner_offset
                (rpc.pubkey_to_bytes token.owner)))
            account
          ≡ true

module _ (rpc : Crates) where
  -- An account of the answer, in base 64.
  abbrev pub entry : Option UiDataSliceConfig → Pubkey × Account → RpcKeyedAccount
  entry data_slice p = record {
    pubkey = rpc.pubkey_to_string p.0;
    account = rpc.encode_ui_account p.0 p.1 base64 none data_slice;
  }

  encode_all-base64 :
      (data_slice : Option UiDataSliceConfig) (keyed : List (Pubkey × Account))
      → encode_all rpc base64 data_slice keyed ≡ ok (map (entry data_slice) keyed)
  unfolding encode_all encode_account collect
  encode_all-base64 data_slice [] = refl
  encode_all-base64 data_slice (p ∷ keyed) = rw (encode_all-base64 data_slice keyed) refl

Occurs-map :
    {A B : Type 0} (f : A → B) (a : A) (xs : List A)
    → Occurs (λ x. x ≡ a) xs
    → Occurs (λ y. y ≡ f a) (map f xs)
Occurs-map f a [] o = absurd o
Occurs-map f a (x ∷ xs) (inl e) = inl (ap f e)
Occurs-map f a (x ∷ xs) (inr o) = inr (Occurs-map f a xs o)

module _ {S : Type 0} (crates : TokenCrates) (indexer : Indexer S) (codec : Codec)
    (exclude_keys : List Pubkey) (filters : List EventFilter) (IsValid : S → Type 0) (view : View S)
    (contract : Implements indexer IsValid view) (rpc : Crates) (chain : Chain) where
  -- The index lists the account, so the keys that the search reads contain it.
  listed_keys :
      (t : S) (owner pubkey : Pubkey)
      → IsValid t
      → view t spl_token_owner owner pubkey ≡ true
      → (found : List Pubkey) × (contains_key pubkey found ≡ true)
        × (get_indexed_keys rpc (lookup_of indexer t) spl_token_owner owner true ≡ ok found)
  unfolding get_indexed_keys
  listed_keys t owner pubkey valid listed =
      let (found, answer, same) = contract.lookup spl_token_owner owner true t valid in
      (found, same pubkey ∙ listed, rw (lookup_of, answer) refl)

  view_answers :
      (t : S) (owner_text program_id_text : String) (owner program_id : Pubkey)
      (info : RpcAccountInfoConfig) (found : List Pubkey)
      → verify_pubkey rpc owner_text ≡ ok owner
      → verify_pubkey rpc program_id_text ≡ ok program_id
      → rpc.is_known_spl_token_id program_id ≡ true
      → info.encoding ≡ some base64
      → get_indexed_keys rpc (lookup_of indexer t) spl_token_owner owner true ≡ ok found
      → token_accounts_view rpc chain
          (lookup_of indexer t)
          owner_text
          (program_text program_id_text)
          (some info)
        ≡ ok (record {
          slot = chain.slot (block_of rpc chain info.commitment);
          value = map (entry rpc info.data_slice) (
              chain.search
                (block_of rpc chain info.commitment)
                program_id
                found
                (redundant_filters rpc rpc.spl_token_account_owner_offset owner []));
        })
  unfolding verify_token_account_filter mint_filters
  view_answers t owner_text program_id_text owner program_id info found o p known encoding keys =
      rw (o, p, known, keys, encoding, encode_all-base64 rpc) refl

  module _ (allows : RpcFilterType → Account → Bool) (laws : HexLaws codec) (server : Server)
      (Good : Node → Type 0) (backs : Backs server Good) (tells : TellsOf codec server chain) where
    -- The method answers with the slot of the block, and the account is in its answer.
    pub record AnswersWith (t : S) (owner_text program_id_text : String)
        (info : RpcAccountInfoConfig) (pubkey : Pubkey) (account : Account) (n : Node)
        : Type 0 where
      pub after : Node
      pub response : RpcResponse (List RpcKeyedAccount)
      pub good : Good after
      pub answers :
          get_token_accounts_by_owner rpc
            (lookup_of indexer t)
            codec
            owner_text
            (program_text program_id_text)
            (some info)
            n
          ≡ (returned (ok response), after)
      pub slot : response.slot ≡ chain.slot (block_of rpc chain info.commitment)
      pub listed : Occurs (λ k. k ≡ entry rpc info.data_slice (pubkey, account)) response.value

    listed-AnswersWith :
        (t : S) (owner_text program_id_text : String) (info : RpcAccountInfoConfig)
        (pubkey : Pubkey) (account : Account) (token : TokenAccount)
        → Finds crates rpc chain allows
        → IsToken crates account token
        → IsValid t
        → view t spl_token_owner token.owner pubkey ≡ true
        → verify_pubkey rpc owner_text ≡ ok token.owner
        → verify_pubkey rpc program_id_text ≡ ok account.owner
        → rpc.is_known_spl_token_id account.owner ≡ true
        → info.encoding ≡ some base64
        → chain.account (block_of rpc chain info.commitment) pubkey ≡ some account
        → (n : Node) → Good n
        → AnswersWith t owner_text program_id_text info pubkey account n
    unfolding Gives redundant_filters
    listed-AnswersWith t owner_text program_id_text info pubkey account token finds is_token valid
          listed o p known encoding exists n good =
        let h = block_of rpc chain info.commitment in
        let (found, contained, keys) = listed_keys t token.owner pubkey valid listed in
        let (n', good', answer) =
          token_accounts-Gives rpc (lookup_of indexer t) codec laws server Good backs chain tells
            owner_text (program_text program_id_text) (some info) n good in
        let response : RpcResponse (List RpcKeyedAccount) = record {
          slot = chain.slot h;
          value = map (entry rpc info.data_slice) (
              chain.search h account.owner found
                (redundant_filters rpc rpc.spl_token_account_owner_offset token.owner []));
        } in
        record {
          after = n';
          response = response;
          good = good';
          answers =
              answer
              ∙ ap (λ r. (returned r, n'))
                  (view_answers t owner_text program_id_text token.owner account.owner info found o
                    p known encoding keys);
          slot = refl;
          listed =
              Occurs-map (entry rpc info.data_slice) (pubkey, account) _
                (finds.finds h account.owner pubkey account found _ contained exists refl (
                  finds.in_state account token is_token,
                  (finds.has_owner account token is_token, tt),
                ));
        }

    -- Once the worker has handled a message that names a token account of the node, without an error
    -- and over a valid index, then in every order of the later steps, and from every good node, over
    -- a server that tells of a chain: `get_token_accounts_by_owner` for the owner of the account and
    -- for its program, in base 64, answers, with the slot of the block that the commitment names, and
    -- its answer lists the account, when the chain still has it there. The program is a known token
    -- program, and the chain finds what it is asked for.
    pub take-AnswersWith :
        (m : Bytes) (pubkey : Pubkey) (account : Account) (token : TokenAccount) (s : System S)
        (owner_text program_id_text : String) (info : RpcAccountInfoConfig)
        → Finds crates rpc chain allows
        → IsToken crates account token
        → IsValid s.database
        → Handles crates indexer codec exclude_keys filters IsValid view contract rpc m pubkey
            account s
        → verify_pubkey rpc owner_text ≡ ok token.owner
        → verify_pubkey rpc program_id_text ≡ ok account.owner
        → rpc.is_known_spl_token_id account.owner ≡ true
        → info.encoding ≡ some base64
        → chain.account (block_of rpc chain info.commitment) pubkey ≡ some account
        → {u : System S}
        → Reach crates indexer codec exclude_keys filters
            (take crates indexer codec exclude_keys m s)
            u
        → (n : Node) → Good n
        → AnswersWith u.database owner_text program_id_text info pubkey account n
    take-AnswersWith m pubkey account token s owner_text program_id_text info finds is_token valid h
          o p known encoding exists {u} reach n good =
        let (valid', listed, _) =
          take_lists crates indexer codec exclude_keys filters IsValid view contract rpc m pubkey
            account token s is_token valid h reach in
        listed-AnswersWith u.database owner_text program_id_text info pubkey account token finds
          is_token valid' listed o p known encoding exists n good
