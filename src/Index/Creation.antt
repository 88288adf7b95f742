-- ===== src/Index/Creation.antt =====
-- db/index/sqlite.rs, db/index/postgres.rs: creating the index keeps the rows that a database has.
use noir_sidecar.Prelude.{◌≡◌, sym, ◌∙◌, Bool}
use noir_sidecar.Index.{Exec, KeyText, Row}
use noir_sidecar.Index.Contract.{IsKeyed}

module _ {Db : Type 0} (holds : Db → Row → Bool) where
  -- The second state has the rows of the first.
  abbrev pub SameRows : Db → Db → Type 0
  SameRows db db' = (r : Row) → holds db' r ≡ holds db r

  -- A statement that adds and removes no row, whether it fails or not.
  abbrev pub Keeps : {A : Type 0} → Exec Db A → Type 0
  Keeps m = (db : Db) → SameRows db (m db).1

  pub SameRows-IsKeyed :
      (keys : KeyText) (db db' : Db)
      → SameRows db db'
      → IsKeyed keys holds db
      → IsKeyed keys holds db'
  SameRows-IsKeyed keys db db' same keyed r m = keyed r (sym (same r) ∙ m)
