-- ===== src/Rpc/Accounts/Programs.antt =====
-- rpc/solana/mod.rs, `get_token_program_id_and_mint`: the program that a token search runs under.
use noir_sidecar.Prelude.{◌≡◌, refl, true, Option, none, some, arith, Bool-cases, inl, inr}
use noir_sidecar.Prelude.Result.{ok}
use noir_sidecar.Sdk.{Pubkey}
use noir_sidecar.Client.{Hash}
use noir_sidecar.Client.Node.{Node, returned, >>=-eq-ok}
use noir_sidecar.Client.Codec.{Codec}
use noir_sidecar.Rpc.Crates.{Crates}
use noir_sidecar.Rpc.Verify.{TokenAccountsFilter, mint, program}
use noir_sidecar.Rpc.Accounts.{get_mint_owner_and_additional_data, get_token_program_id_and_mint}

-- The mint that a filter names, and the program that it names.
abbrev pub mint_of : TokenAccountsFilter → Option Pubkey
mint_of (mint key) = some key
mint_of (program program_id) = none

abbrev pub NamesProgram : TokenAccountsFilter → Pubkey → Type 0
NamesProgram (mint key) found = Unit {0}
NamesProgram (program program_id) found = found ≡ program_id

module _ (crates : Crates) (codec : Codec) where
  -- Whatever the node answers, a search by a token filter that goes on runs under a known token
  -- program, the one that the filter names if it names one, and keeps the mint that the filter names.
  pub get_token_program_id_and_mint-eq-ok :
      (token_filter : TokenAccountsFilter) (at_hash : Hash) (n n' : Node)
      (found : Pubkey × Option Pubkey)
      → get_token_program_id_and_mint crates codec token_filter at_hash n
        ≡ (returned (ok found), n')
      → (crates.is_known_spl_token_id found.0 ≡ true)
        × NamesProgram token_filter found.0
        × (found.1 ≡ mint_of token_filter)
  unfolding get_token_program_id_and_mint
  get_token_program_id_and_mint-eq-ok (mint key) at_hash n n' found h =
      let (owner, n₁, _, rest) =
        >>=-eq-ok (get_mint_owner_and_additional_data crates codec key at_hash) _ n h in
      elim (Bool-cases (crates.is_known_spl_token_id owner.0)) [
        | inr unknown ↦ absurd (ground (arith, unknown))
        | inl known ↦
            let same : found ≡ (owner.0, some key) = ground (arith, known) in
            rw same (known, tt, refl)
      ]
  get_token_program_id_and_mint-eq-ok (program program_id) at_hash n n' found h =
      elim (Bool-cases (crates.is_known_spl_token_id program_id)) [
        | inr unknown ↦ absurd (ground (arith, unknown))
        | inl known ↦
            let same : found ≡ (program_id, none) = ground (arith, known) in
            rw same (known, refl, refl)
      ]
