-- ===== src/Index/Sqlite/Refines.antt =====
-- db/index/sqlite.rs: the SQLite index against the contract of the trait.
use noir_sidecar.Prelude.{
  ◌≡◌, refl, ap, sym, ◌∙◌, String, Bool, true, false, ◌||◌, List, [], ◌∷◌, map,
}
use noir_sidecar.Prelude.Result.{ok, err, collect}
use noir_sidecar.Sdk.{Pubkey}
use noir_sidecar.Index.{
  Error, sqlite_error, AccountIndex, get_index_name, KeyText, KeyTextLaws, Row, row_eq, row_of,
}
use noir_sidecar.Index.Contract.{
  Implements, Adds, contains_key, contains_text, row_eq-row_of, contains_text-map, key_texts,
  IsKeyed, row_view, Keyed-insert,
}
use noir_sidecar.Index.Sqlite.{
  SqliteEngine, select_sql, insert_sql, read_row, get_indexed_keys, insert_index, indexer,
}

-- What SQLite documents of the statements that the index runs, in the states that are `Ready`: the mutex of the connection is not poisoned, the
-- table `accounts_index` has been created and nothing stands in the way of reading or writing it. For
-- a table whose rows are `holds`: its selects prepare and list the matching rows, an insertion of a new
-- row changes one row, and one of a row that is there violates UNIQUE and changes nothing.
pub record SqliteLaws {Db : Type 0} (engine : SqliteEngine Db) (Ready : Db → Type 0)
    (holds : Db → Row → Bool) : Type 0 where
  pub unlocked : (db : Db) → Ready db → engine.lock db ≡ true
  pub prepares :
      (sort_results : Bool) (db : Db)
      → Ready db
      → engine.prepare (select_sql sort_results) db ≡ ok tt
  pub selects :
      (sort_results : Bool) (name key : String) (db : Db)
      → Ready db
      → (texts : List String) × (engine.query_map (select_sql sort_results) (name ∷ key ∷ []) db
          ≡ ok (map ok texts))
        × ((s : String)
            → contains_text s texts
              ≡ holds db (record { index_name = name; index_key = key; indexed_key = s }))
  pub inserts :
      (r : Row) (db : Db)
      → Ready db
      → holds db r ≡ false
      → (db' : Db) × (engine.execute insert_sql (r.index_name ∷ r.index_key ∷ r.indexed_key ∷ []) db
          ≡ (ok 1, db'))
        × Ready db'
        × ((q : Row) → holds db' q ≡ (row_eq r q || holds db q))
  pub refuses :
      (r : Row) (db : Db)
      → Ready db
      → holds db r ≡ true
      → (e : String) × (engine.execute insert_sql
            (r.index_name ∷ r.index_key ∷ r.indexed_key ∷ [])
            db
          ≡ (err e, db))

module _ {Db : Type 0} (engine : SqliteEngine Db) (keys : KeyText) (Ready : Db → Type 0)
    (holds : Db → Row → Bool) (texts_law : KeyTextLaws keys)
    (laws : SqliteLaws engine Ready holds) where
  -- A state in which the index keeps its contract: ready, and with keys only in the table.
  abbrev pub IsSound : Db → Type 0
  IsSound db = Ready db × IsKeyed keys holds db

  reads :
      (ps : List Pubkey)
      → collect (map (read_row engine keys) (map ok (map keys.to_string ps))) ≡ ok ps
  unfolding collect read_row
  reads [] = refl
  reads (p ∷ ps) = rw (texts_law.from_str-to_string p, reads ps)

  lookup :
      (i : AccountIndex) (k : Pubkey) (sort_results : Bool) (db : Db)
      → IsSound db
      → (found : List Pubkey) × (get_indexed_keys engine keys i k sort_results db ≡ (ok found, db))
        × ((x : Pubkey) → contains_key x found ≡ row_view keys holds db i k x)
  unfolding get_indexed_keys
  lookup i k sort_results db (ready, keyed) =
      let (texts, queried, listed) =
        laws.selects sort_results (get_index_name i) (keys.to_string k) db ready in
      let (ps, e) = key_texts keys texts_law texts (λ s m. keyed _ (sym (listed s) ∙ m)) in
      (
        ps,
        rw (laws.unlocked db ready, laws.prepares sort_results db ready, queried, e, reads ps),
        λ x.
            sym (contains_text-map keys texts_law x ps)
            ∙ ap (contains_text (keys.to_string x)) (sym e)
            ∙ listed (keys.to_string x),
      )

  insert_new :
      (i : AccountIndex) (k x : Pubkey) (db : Db)
      → IsSound db
      → row_view keys holds db i k x ≡ false
      → (t : Db) × (insert_index engine keys i k x db ≡ (ok tt, t))
        × IsSound t
        × Adds (row_view keys holds) i k x db t
  unfolding insert_index
  insert_new i k x db (ready, keyed) new =
      let (t, run, ready', listed) = laws.inserts (row_of keys i k x) db ready new in
      (
        t,
        rw (laws.unlocked db ready, run),
        (ready', λ r m. Keyed-insert keys holds i k x r db keyed (sym (listed r) ∙ m)),
        λ j l y.
            listed (row_of keys j l y)
            ∙ ap (λ b. b || row_view keys holds db j l y)
                (row_eq-row_of keys texts_law i j k l x y),
      )

  insert_known :
      (i : AccountIndex) (k x : Pubkey) (db : Db)
      → Ready db
      → row_view keys holds db i k x ≡ true
      → (e : Error) × (insert_index engine keys i k x db ≡ (err e, db))
  unfolding insert_index
  insert_known i k x db ready known =
      let (e, run) = laws.refuses (row_of keys i k x) db ready known in
      (sqlite_error e, rw (laws.unlocked db ready, run))

  -- In the ready states (the mutex of the connection is not poisoned, and
  -- the table has been created) whose indexed keys are texts of keys, the SQLite index keeps the
  -- contract of the trait over the rows of its table: a new entry is added and the state stays such a
  -- state, a known entry is refused, and a lookup lists exactly the keys.
  pub sqlite-Implements : Implements (indexer engine keys) IsSound (row_view keys holds)
  sqlite-Implements = record {
    insert_new = insert_new;
    insert_known = λ i k x s sound. insert_known i k x s sound.0;
    lookup = lookup;
  }
