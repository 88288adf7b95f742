-- ===== src/Index/Update.antt =====
-- db/index/mod.rs, `AccountsIndex`: the worker that receives the keys of loaded accounts, fetches the
-- accounts from the node, and indexes the token accounts among them.
pub mod Entries
pub mod Insertion
pub mod Excluded
pub mod Grown
pub mod Found
pub mod Backends
pub mod Choice
pub mod Samples
mod Tests
use noir_sidecar.Prelude.{
  ℕ, String, Bool, not, Option, none, List, [], ◌∷◌, filter, filter_map, option_map, ◌==◌,
  if◌then◌else◌,
}
use noir_sidecar.Prelude.Result.{Result, ok, err, map_err}
use noir_sidecar.Sdk.{Bytes, Pubkey, Account}
use noir_sidecar.Client.Node.{Node, Outcome, returned, panicked}
use noir_sidecar.Client.Codec.{Codec}
use noir_sidecar.Client.Solana.{get_accounts}
use noir_sidecar.Client.{Error as ClientError}
use noir_sidecar.Index.{
  Error, client_error, program_id, spl_token_mint, spl_token_owner, Exec, ◌>>=◌, ◌>>◌, pure,
  Indexer,
}
use noir_sidecar.Index.Contract.{contains_key}

-- The fields of `spl_token::state::Account` that are read.
pub record TokenAccount : Type 0 where
  pub mint : Pubkey
  pub owner : Pubkey

-- The token crates, and the decoding of an event's keys, `Vec::<EventPubkey>::decode`.
pub record TokenCrates : Type 0 where
  pub is_known_spl_token_id : Pubkey → Bool
  pub unpack : Bytes → Result String TokenAccount
  pub decode_pubkeys : Bytes → Result String (List Pubkey)

-- The accounts that exist, as `update_index` collects them.
abbrev pub present : List (Pubkey × Option Account) → List (Pubkey × Account)
present accounts = filter_map (λ p. option_map (λ account. (p.0, account)) p.1) accounts

module _ {S : Type 0} (crates : TokenCrates) (indexer : Indexer S) where
  -- The three insertions for one token account.
  insert_token : Pubkey → Account → TokenAccount → Exec S (Unit {0})
  insert_token pubkey account token = do
    indexer.insert_index program_id account.owner pubkey
    indexer.insert_index spl_token_owner token.owner pubkey
    indexer.insert_index spl_token_mint token.mint pubkey

  unpacked : Pubkey → Account → Result String TokenAccount → Exec S (Unit {0})
  unpacked pubkey account (ok token) = insert_token pubkey account token
  unpacked pubkey account (err e) = pure tt

  index_account : Pubkey × Account → Exec S (Unit {0})
  unfolding unpacked insert_token
  index_account (pubkey, account) =
      if crates.is_known_spl_token_id account.owner
      then unpacked pubkey account (crates.unpack account.contents)
      else pure tt

  -- The loop of `update_index`.
  unfoldable pub index_accounts : List (Pubkey × Account) → Exec S (Unit {0})
  unfolding index_account unpacked insert_token
  index_accounts [] = pure tt
  index_accounts (a ∷ as') = index_account a >> index_accounts as'

  module _ (codec : Codec) where
    after_fetch :
        Outcome ClientError (List (Pubkey × Option Account)) × Node
        → S
        → Outcome Error (Unit {0}) × Node × S
    after_fetch (returned (ok accounts), n) s =
        let (r, s') = index_accounts (present accounts) s in (returned r, n, s')
    after_fetch (returned (err e), n) s = (returned (err (client_error e)), n, s)
    after_fetch (panicked, n) s = (panicked, n, s)

    unfoldable pub update_index : List Pubkey → Node → S → Outcome Error (Unit {0}) × Node × S
    unfolding after_fetch index_accounts index_account unpacked insert_token
    update_index pubkeys n s = after_fetch (get_accounts codec pubkeys none n) s

    module _ (exclude_keys : List Pubkey) where
      on_pubkeys : Result String (List Pubkey) → Node → S → Outcome Error (Unit {0}) × Node × S
      on_pubkeys (ok pubkeys) n s =
          update_index (filter (λ pubkey. not (contains_key pubkey exclude_keys)) pubkeys) n s
      on_pubkeys (err e) n s = (returned (ok tt), n, s)

      -- One message of the channel. Errors are logged, and the loop goes on.
      unfoldable pub on_message : Bytes → Node → S → Outcome Error (Unit {0}) × Node × S
      unfolding on_pubkeys
      on_message bytes n s = on_pubkeys (crates.decode_pubkeys bytes) n s

      -- `AccountsIndex::run` over the messages that arrive.
      pub run : List Bytes → Node → S → Node × S
      run [] n s = (n, s)
      run (m ∷ ms) n s =
          let (o, n', s') = on_message m n s in
          let rest = run ms n' s' in elim o [ returned r ↦ rest | panicked ↦ (n', s') ]
