-- ===== src/Index/Tested.antt =====
-- db/index/sqlite.rs, `test_get_indexed_keys`, on SQLite and for any two keys.
use noir_sidecar.Prelude.{◌≡◌, Bool, true, false, ◌&&◌, List, [], ◌∷◌, ◌==◌, arith}
use noir_sidecar.Prelude.Result.{Result, ok, err}
use noir_sidecar.Sdk.{Pubkey}
use noir_sidecar.Index.{Error, spl_token_owner, Indexer, KeyText, KeyTextLaws, Row, row_of}
use noir_sidecar.Index.Contract.{Implements, View, contains_key, row_view}
use noir_sidecar.Index.Sqlite.{SqliteEngine, indexer}
use noir_sidecar.Index.Sqlite.Creates.{IsFresh, fresh-create_index}
use noir_sidecar.Index.Sqlite.Refines.{SqliteLaws, IsSound, sqlite-Implements}

-- `result.is_ok()`.
abbrev pub is_ok : {A : Type 0} → Result Error A → Bool
is_ok (ok a) = true
is_ok (err e) = false

-- `indexed_keys[0] == indexed_key` on what `unwrap` leaves; a panic fails the test.
abbrev pub first_is : Pubkey → Result Error (List Pubkey) → Bool
first_is indexed_key (ok []) = false
first_is indexed_key (ok (key ∷ keys)) = key == indexed_key
first_is indexed_key (err e) = false

module _ {S : Type 0} (indexer : Indexer S) (index_key indexed_key : Pubkey) where
  -- Whether every assertion of the test holds.
  unfoldable pub test_get_indexed_keys : S → Bool
  test_get_indexed_keys s =
      let created = indexer.create_index s in
      let inserted = indexer.insert_index spl_token_owner index_key indexed_key created.1 in
      let read = indexer.get_indexed_keys spl_token_owner index_key false inserted.1 in
      is_ok created.0 && is_ok inserted.0 && first_is indexed_key read.0

  first_is-only :
      (found : List Pubkey)
      → ((x : Pubkey) → contains_key x found ≡ (x == indexed_key))
      → first_is indexed_key (ok found) ≡ true
  first_is-only [] only = ground (arith, only indexed_key)
  first_is-only (key ∷ keys) only = ground (arith, only key)

  module _ (IsValid : S → Type 0) (view : View S) (contract : Implements indexer IsValid view) where
    -- The assertions, once the index has been created and lists nothing.
    pub passes_on_created :
        (s t : S)
        → indexer.create_index s ≡ (ok tt, t)
        → IsValid t
        → ((x : Pubkey) → view t spl_token_owner index_key x ≡ false)
        → test_get_indexed_keys s ≡ true
    unfolding test_get_indexed_keys
    passes_on_created s t created valid empty =
        let (u, inserted, valid', adds) =
          contract.insert_new spl_token_owner index_key indexed_key t valid (empty indexed_key) in
        let (found, answer, lists) = contract.lookup spl_token_owner index_key false u valid' in
        let only : (x : Pubkey) → contains_key x found ≡ (x == indexed_key) =
          λ x. ground (arith, lists x, adds spl_token_owner index_key x, empty x) in
        rw (created, inserted, answer) (first_is-only found only)

module _ {Db : Type 0} (engine : SqliteEngine Db) (keys : KeyText) (Ready : Db → Type 0)
    (holds : Db → Row → Bool) (texts_law : KeyTextLaws keys)
    (laws : SqliteLaws engine Ready holds) where
  -- On SQLite, from a database without the table, every assertion of the test holds, for every two
  -- keys: the table is created, the entry is inserted, and the first key read is the one inserted.
  pub sqlite_test_passes :
      (index_key indexed_key : Pubkey) (db : Db)
      → IsFresh engine Ready holds db
      → test_get_indexed_keys (indexer engine keys) index_key indexed_key db ≡ true
  sqlite_test_passes index_key indexed_key db fresh =
      let (t, batch, ready, empty) = fresh.creates in
      passes_on_created (indexer engine keys) index_key indexed_key
        (IsSound engine keys Ready holds texts_law laws) (row_view keys holds)
        (sqlite-Implements engine keys Ready holds texts_law laws) db t
        (fresh-create_index engine keys Ready holds db t fresh batch)
        (ready, λ r m. absurd (ground (arith, m, empty r)))
        (λ x. empty (row_of keys spl_token_owner index_key x))
