-- ===== src/Rpc/Accounts/Partition.antt =====
-- rpc/solana/mod.rs, `filter_known_spl_tokens`: which accounts are parsed as token accounts.
use noir_sidecar.Prelude.{
  ◌≡◌, true, false, Option, none, some, List, [], ◌∷◌, All, Occurs, arith, inl, inr, ap, ◌∙◌,
  Bool-cases,
}
use noir_sidecar.Sdk.{Pubkey, Account}
use noir_sidecar.Rpc.Crates.{Crates}
use noir_sidecar.Rpc.Accounts.{filter_known_spl_tokens, is_token_entry}

module _ (crates : Crates) where
  token_keys :
      (accounts : List (Pubkey × Option Account))
      → All
          (λ p. crates.is_known_spl_token_id p.0 ≡ true)
          (filter_known_spl_tokens crates accounts).0
  unfolding filter_known_spl_tokens is_token_entry
  token_keys [] = tt
  token_keys ((key, none) ∷ rest) = ground (arith, token_keys rest)
  token_keys ((key, some account) ∷ rest) = elim (Bool-cases (crates.is_known_spl_token_id key)) [
    | inl known ↦ rw known (known, token_keys rest)
    | inr other ↦ rw other (token_keys rest)
  ]

  other_entries :
      (accounts : List (Pubkey × Option Account)) (p : Pubkey × Option Account)
      → Occurs (λ q. q ≡ p) accounts
      → crates.is_known_spl_token_id p.0 ≡ false
      → Occurs (λ q. q ≡ p) (filter_known_spl_tokens crates accounts).1
  unfolding filter_known_spl_tokens is_token_entry
  other_entries [] p none_there h = elim none_there [ ]
  other_entries (q ∷ rest) p (inl e) h =
      rw (ap (λ x. crates.is_known_spl_token_id x.0) e ∙ h) (inl e)
  other_entries (q ∷ rest) p (inr o) h = elim (Bool-cases (is_token_entry crates q)) [
    | inl token ↦ rw token (other_entries rest p o h)
    | inr other ↦ rw other (inr (other_entries rest p o h))
  ]

  -- Whatever else is in the list: every account that is taken for a token account has a key that is
  -- itself the id of a token program, and an entry with another key is left among the others, whichever
  -- program owns its account.
  pub filter_known_spl_tokens-any_owner :
      (accounts : List (Pubkey × Option Account)) (p : Pubkey × Option Account)
      → Occurs (λ q. q ≡ p) accounts
      → crates.is_known_spl_token_id p.0 ≡ false
      → All
          (λ q. crates.is_known_spl_token_id q.0 ≡ true)
          (filter_known_spl_tokens crates accounts).0
        × Occurs (λ q. q ≡ p) (filter_known_spl_tokens crates accounts).1
  filter_known_spl_tokens-any_owner accounts p o h =
      (token_keys accounts, other_entries accounts p o h)
