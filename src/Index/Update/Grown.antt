-- ===== src/Index/Update/Grown.antt =====
-- db/index/mod.rs, `AccountsIndex::run`: the worker only ever adds entries.
use noir_sidecar.Prelude.{◌≡◌, ap, ◌∙◌, true, String, Option, none, List}
use noir_sidecar.Prelude.Result.{Result, ok, err}
use noir_sidecar.Sdk.{Bytes, Pubkey, Account}
use noir_sidecar.Client.{Error as ClientError}
use noir_sidecar.Client.Node.{Node, Outcome, returned, panicked}
use noir_sidecar.Client.Codec.{Codec}
use noir_sidecar.Client.Solana.{get_accounts}
use noir_sidecar.Index.{AccountIndex, Indexer}
use noir_sidecar.Index.Contract.{Implements, View}
use noir_sidecar.Index.Update.{
  TokenCrates, present, after_fetch, update_index, on_pubkeys, on_message,
}
use noir_sidecar.Index.Update.Entries.{entries_of}
use noir_sidecar.Index.Update.Found.{In-insert_until_known}
use noir_sidecar.Index.Update.Excluded.{kept}
use noir_sidecar.Index.Update.Insertion.{index_accounts-Leaves}

module _ {S : Type 0} (crates : TokenCrates) (indexer : Indexer S) (codec : Codec)
    (IsValid : S → Type 0) (view : View S) (contract : Implements indexer IsValid view) where
  -- The state keeps the index valid, and every entry that it lists.
  abbrev pub Grows : S → S → Type 0
  Grows s t =
      IsValid t × ((i : AccountIndex) (k x : Pubkey) → view s i k x ≡ true → view t i k x ≡ true)

  Grows-refl : (s : S) → IsValid s → Grows s s
  Grows-refl s valid = (valid, λ i k x listed. listed)

  after_fetch-Grows :
      (o : Outcome ClientError (List (Pubkey × Option Account)) × Node) (s : S)
      → IsValid s
      → Grows s (after_fetch crates indexer codec o s).2
  unfolding after_fetch
  after_fetch-Grows (returned (ok rs), n) s valid =
      let (valid', grown, _) =
        index_accounts-Leaves crates indexer IsValid view contract (present rs) s valid in
      (
        valid',
        λ i k x listed.
            ap (λ v. v i k x) grown
            ∙ In-insert_until_known (entries_of crates (present rs)) (view s)
                (record { index = i; key = k; indexed = x }) listed,
      )
  after_fetch-Grows (returned (err e), n) s valid = Grows-refl s valid
  after_fetch-Grows (panicked, n) s valid = Grows-refl s valid

  on_pubkeys-Grows :
      (exclude_keys : List Pubkey) (r : Result String (List Pubkey)) (n : Node) (s : S)
      → IsValid s
      → Grows s (on_pubkeys crates indexer codec exclude_keys r n s).2
  unfolding on_pubkeys update_index
  on_pubkeys-Grows exclude_keys (ok pubkeys) n s valid =
      after_fetch-Grows (get_accounts codec (kept exclude_keys pubkeys) none n) s valid
  on_pubkeys-Grows exclude_keys (err e) n s valid = Grows-refl s valid

  pub on_message-Grows :
      (exclude_keys : List Pubkey) (m : Bytes) (n : Node) (s : S)
      → IsValid s
      → Grows s (on_message crates indexer codec exclude_keys m n s).2
  unfolding on_message
  on_message-Grows exclude_keys m n s valid =
      on_pubkeys-Grows exclude_keys (crates.decode_pubkeys m) n s valid
