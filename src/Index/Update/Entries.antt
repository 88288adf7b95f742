-- ===== src/Index/Update/Entries.antt =====
-- db/index/mod.rs, `update_index`: the entries that it inserts, in order, and an abstract index, a
-- set of entries, that takes them until the first one that it has.
use noir_sidecar.Prelude.{
  String, Bool, true, false, ◌&&◌, ◌||◌, List, [], ◌∷◌, ◌++◌, ◌==◌, if◌then◌else◌,
}
use noir_sidecar.Prelude.Result.{Result, ok, err}
use noir_sidecar.Sdk.{Pubkey, Account}
use noir_sidecar.Index.{AccountIndex, program_id, spl_token_mint, spl_token_owner}
use noir_sidecar.Index.Contract.{same_index}
use noir_sidecar.Index.Update.{TokenCrates, TokenAccount}

pub record Entry : Type 0 where
  pub index : AccountIndex
  pub key : Pubkey
  pub indexed : Pubkey

-- A set of entries.
abbrev pub EntrySet : Type 0
EntrySet = AccountIndex → Pubkey → Pubkey → Bool

abbrev pub add : Entry → EntrySet → EntrySet
add e v j l y = same_index e.index j && e.key == l && e.indexed == y || v j l y

-- The set after the insertions, and whether all of them were new.
unfoldable pub insert_until_known : List Entry → EntrySet → EntrySet × Bool
insert_until_known [] v = (v, true)
insert_until_known (e ∷ es) v =
    let rest = insert_until_known es (add e v) in
    if v e.index e.key e.indexed then (v, false) else rest

abbrev pub token_entries : Pubkey → Account → TokenAccount → List Entry
token_entries pubkey account token =
    record { index = program_id; key = account.owner; indexed = pubkey }
    ∷ record { index = spl_token_owner; key = token.owner; indexed = pubkey }
    ∷ record { index = spl_token_mint; key = token.mint; indexed = pubkey }
    ∷ []

abbrev pub unpacked_entries : Pubkey → Account → Result String TokenAccount → List Entry
unpacked_entries pubkey account (ok token) = token_entries pubkey account token
unpacked_entries pubkey account (err e) = []

module _ (crates : TokenCrates) where
  abbrev pub account_entries : Pubkey × Account → List Entry
  account_entries (pubkey, account) =
      if crates.is_known_spl_token_id account.owner
      then unpacked_entries pubkey account (crates.unpack account.contents)
      else []

  -- Program, owner and mint of each token account, account by account.
  abbrev pub entries_of : List (Pubkey × Account) → List Entry
  entries_of [] = []
  entries_of (a ∷ as') = account_entries a ++ entries_of as'
