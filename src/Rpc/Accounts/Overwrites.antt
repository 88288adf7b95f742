-- ===== src/Rpc/Accounts/Overwrites.antt =====
-- rpc/solana/mod.rs, `get_accounts_from_overwrites_or_node`: where each account comes from.
use noir_sidecar.Prelude.{
  ℕ, ◌≡◌, refl, Bool, true, false, not, ◌||◌, Option, none, some, List, [], ◌∷◌, ◌++◌, map, filter,
  is_some, or_else, flatten, ◌==◌, if◌then◌else◌, arith, ==_iff, sym, ap, subst, ◌∙◌,
}
use mathlib.Core.Path.{ap₂}
use mathlib.Core.List.{append-nil, append_assoc}
use noir_sidecar.Prelude.Result.{ok}
use noir_sidecar.Prelude.HashMap.{HashMap, get, collect, last_entry, get-insert, get-collect}
use noir_sidecar.Sdk.{Pubkey, Account}
use noir_sidecar.Client.{Hash}
use noir_sidecar.Client.Node.{Node, returned, >>=-eq-ok, map_err_io-eq-ok, pure}
use noir_sidecar.Client.Codec.{Codec}
use noir_sidecar.Client.Solana.{get_accounts}
use noir_sidecar.Index.Contract.{contains_key}
use noir_sidecar.Rpc.{ErrorObject}
use noir_sidecar.Rpc.Crates.{Crates}
use noir_sidecar.Rpc.Verify.{internal_error}
use noir_sidecar.Rpc.Accounts.{
  overwrite_of, asked, keep_or_ask, split_overwrites, join_accounts,
  get_accounts_from_overwrites_or_node,
}

==-comm : (j k : ℕ) → (j == k) ≡ (k == j)
==-comm j k = ground arith

or_else-none : {A : Type 0} (o r : Option A) → or_else (or_else o none) r ≡ or_else o r
or_else-none none r = refl
or_else-none (some a) r = refl

drop_none :
    {A : Type 0} (b c : Bool) (o r : Option A)
    → (b ≡ true → o ≡ none)
    → or_else (if c then o else none) r ≡ or_else (if b || c then o else none) r
drop_none true true o r h = refl
drop_none true false o r h = rw (h refl) refl
drop_none false c o r h = refl

keep_some :
    {A : Type 0} {a : A} (b b' c : Bool) (o r : Option A)
    → b ≡ b'
    → (b ≡ true → o ≡ some a)
    → or_else (if c then o else none) (if b' then some a else r)
      ≡ or_else (if b || c then o else none) r
keep_some true b' true o r e h = rw (h refl) refl
keep_some true b' false o r e h = rw (← e, h refl) refl
keep_some false b' c o r e h = rw (← e) refl

pub map_listed :
    {B : Type 0} (f g : Pubkey → B) (ks : List Pubkey)
    → ((k : Pubkey) → contains_key k ks ≡ true → f k ≡ g k)
    → map f ks ≡ map g ks
map_listed f g [] same = refl
map_listed f g (k ∷ ks) same =
    ap₂ (λ x xs. x ∷ xs) (same k (ground arith))
      (map_listed f g ks (λ j h. same j (ground (arith, h))))

-- The keys that no overwrite covers.
abbrev pub not_overwritten : Option (HashMap Account) → List Pubkey → List Pubkey
not_overwritten overwrites keys = filter (λ k. not (is_some (overwrite_of overwrites k))) keys

-- An account as the overwrites give it, or else as the node's answer lists it.
abbrev pub resolved :
    Option (HashMap Account) → List (Pubkey × Option Account) → Pubkey → Option Account
resolved overwrites answered k =
    or_else (overwrite_of overwrites k) (flatten (last_entry k answered))

module _ (crates : Crates) (codec : Codec) where
  others-step :
      (k : Pubkey) (o : Option Account) (s : HashMap Account × List Pubkey) (rest : List Pubkey)
      → (keep_or_ask k o s).1 ++ rest ≡ s.1 ++ (if not (is_some o) then k ∷ rest else rest)
  unfolding keep_or_ask
  others-step k (some a) (found, others) rest = refl
  others-step k none (found, others) rest = append_assoc others (k ∷ []) rest

  found-step :
      (j k : Pubkey) (o oj : Option Account) (c : Bool) (s : HashMap Account × List Pubkey)
      → (j ≡ k → oj ≡ o)
      → or_else (if c then oj else none) (get j (keep_or_ask k o s).0)
        ≡ or_else (if j == k || c then oj else none) (get j s.0)
  unfolding keep_or_ask
  found-step j k none oj c (found, others) same =
      drop_none (j == k) c oj (get j found) (λ e. same ((==_iff j k).0 e))
  found-step j k (some a) oj c (found, others) same =
      rw (get-insert k j a found) (
        keep_some (j == k) (k == j) c oj (get j found) (==-comm j k) (λ e. same ((==_iff j k).0 e)))

module _ (crates : Crates) (codec : Codec) (overwrites : Option (HashMap Account)) where
  pub others-split :
      (keys : List Pubkey) (s : HashMap Account × List Pubkey)
      → (split_overwrites overwrites keys s).1 ≡ s.1 ++ not_overwritten overwrites keys
  unfolding split_overwrites
  others-split [] s = sym (append-nil s.1)
  others-split (k ∷ keys) s =
      others-split keys (keep_or_ask k (overwrite_of overwrites k) s)
      ∙ others-step crates codec k (overwrite_of overwrites k) s (not_overwritten overwrites keys)

  found-split :
      (j : Pubkey) (keys : List Pubkey) (s : HashMap Account × List Pubkey)
      → get j (split_overwrites overwrites keys s).0
        ≡ or_else (if contains_key j keys then overwrite_of overwrites j else none) (get j s.0)
  unfolding split_overwrites
  found-split j [] s = refl
  found-split j (k ∷ keys) s =
      found-split j keys (keep_or_ask k (overwrite_of overwrites k) s)
      ∙ found-step crates codec j k (overwrite_of overwrites k) (overwrite_of overwrites j)
          (contains_key j keys) s (λ e. ap (overwrite_of overwrites) e)

  pub split-resolved :
      (keys : List Pubkey) (answered : List (Pubkey × Option Account)) (j : Pubkey)
      → contains_key j keys ≡ true
      → or_else
          (get j (split_overwrites overwrites keys ([], [])).0)
          (flatten (get j (collect answered)))
        ≡ resolved overwrites answered j
  unfolding get
  split-resolved keys answered j h =
      rw (found-split j keys ([], []), h, get-collect j answered)
        (or_else-none (overwrite_of overwrites j) (flatten (last_entry j answered)))

  -- When the call returns, it asked the node once, for exactly the keys that no overwrite covers, in
  -- order; and each requested key is listed, in the order requested, with its overwrite if it has
  -- one, and else with the node's account, none for a key that the node leaves out.
  pub get_accounts_from_overwrites_or_node_lem :
      (pubkeys : List Pubkey) (at_hash : Hash) (n n' : Node) (rs : List (Pubkey × Option Account))
      → get_accounts_from_overwrites_or_node crates codec pubkeys overwrites at_hash n
        ≡ (returned (ok rs), n')
      → (answered : List (Pubkey × Option Account)) × (get_accounts codec
            (not_overwritten overwrites pubkeys)
            (some at_hash)
            n
          ≡ (returned (ok answered), n'))
        × (rs ≡ map (λ k. (k, resolved overwrites answered k)) pubkeys)
  unfolding get_accounts_from_overwrites_or_node join_accounts
  get_accounts_from_overwrites_or_node_lem pubkeys at_hash n n' rs h =
      let (answered, n₁, asked_ok, rest) =
        >>=-eq-ok
          (asked crates
            (get_accounts codec (split_overwrites overwrites pubkeys ([], [])).1 (some at_hash)))
          (λ answered. pure (
            join_accounts pubkeys (split_overwrites overwrites pubkeys ([], [])).0
              (collect answered)))
          n h in
      let found =
        map_err_io-eq-ok (λ e. internal_error crates (some (crates.debug_error e)))
          (get_accounts codec (split_overwrites overwrites pubkeys ([], [])).1 (some at_hash)) n
          asked_ok in
      (
        answered,
        subst (λ keys. get_accounts codec keys (some at_hash) n ≡ (returned (ok answered), n'))
            (others-split pubkeys ([], []))
            (found ∙ ap (λ m. (returned (ok answered), m)) (ends rest)),
        values_of rest
            ∙ map_listed _ _ pubkeys
                (λ k listed. ap (λ o. (k, o)) (split-resolved pubkeys answered k listed)),
      )
    where
      ends :
          {xs : List (Pubkey × Option Account)} {n₁ : Node}
          → pure {E = ErrorObject} xs n₁ ≡ (returned (ok rs), n')
          → n₁ ≡ n'
      ends e = ground arith

      values_of :
          {xs : List (Pubkey × Option Account)} {n₁ : Node}
          → pure {E = ErrorObject} xs n₁ ≡ (returned (ok rs), n')
          → rs ≡ xs
      values_of e = ground arith
