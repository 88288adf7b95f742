-- ===== src/Index/Samples.antt =====
-- A table as a list of rows, behind both engines, for the tests of the index.
use text.Mathlib.Text.{◌==◌ as str_eq}
use text.Mathlib.TextEquality.{eq_iff}
use noir_sidecar.Prelude.{
  ℕ, ◌≡◌, refl, ap, String, Bool, true, false, ◌&&◌, ◌||◌, List, [], ◌∷◌, map, if◌then◌else◌, arith,
}
use noir_sidecar.Prelude.Result.{Result, ok, err}
use noir_sidecar.Sdk.{Bytes, Pubkey}
use noir_sidecar.Client.Samples.{encode, decode, decode-encode}
use noir_sidecar.Index.{KeyText, KeyTextLaws, Row, row_eq}
use noir_sidecar.Index.Contract.{contains_text}
use noir_sidecar.Index.Sqlite.{SqliteEngine, exists_sql}
use noir_sidecar.Index.Sqlite.Refines.{SqliteLaws}
use noir_sidecar.Index.Postgres.{PostgresEngine}
use noir_sidecar.Index.Postgres.Refines.{PostgresLaws}

abbrev one_key : Bytes → Result String Pubkey
one_key (p ∷ []) = ok p
one_key _ = err "WrongSize"

abbrev pub unary_keys : KeyText
unary_keys = record { to_string = λ p. encode (p ∷ []); from_str = λ s. one_key (decode s) }

pub unary-KeyTextLaws : KeyTextLaws unary_keys
unfolding decode
unary-KeyTextLaws = record { from_str-to_string = λ p. ap one_key (decode-encode (p ∷ [])) }

abbrev pub Table : Type 0
Table = List Row

-- A list of rows is always ready.
abbrev pub TableReady : Table → Type 0
TableReady db = Unit {0}

abbrev pub listed : Table → Row → Bool
listed [] q = false
listed (r ∷ db) q = row_eq r q || listed db q

abbrev select : String → String → Table → List String
select name key [] = []
select name key (r ∷ db) =
    let rest = select name key db in
    if str_eq r.index_name name && str_eq r.index_key key then r.indexed_key ∷ rest else rest

abbrev query_table : List String → Table → List String
query_table (name ∷ key ∷ []) db = select name key db
query_table _ db = []

abbrev insert_row : Row → Table → Result String ℕ × Table
insert_row r db = if listed db r then (err "UNIQUE constraint failed", db) else (ok 1, r ∷ db)

abbrev execute_table : List String → Table → Result String ℕ × Table
execute_table (name ∷ key ∷ x ∷ []) db =
    insert_row (record { index_name = name; index_key = key; indexed_key = x }) db
execute_table _ db = (ok 0, db)

abbrev pub sqlite_table : SqliteEngine Table
sqlite_table = record {
  lock = λ db. true;
  prepare = λ sql db. ok tt;
  query_map = λ sql args db. ok (map ok (query_table args db));
  query_exists = λ sql db. ok true;
  execute = λ sql args db. execute_table args db;
  execute_batch = λ sql db. (ok tt, db);
  statement_changed_rows = λ n. "StatementChangedRows";
}

abbrev pub postgres_table : PostgresEngine Table
postgres_table = record {
  conn = λ db. true;
  prepare = λ sql db. ok tt;
  query = λ sql args db. ok (query_table args db);
  execute = λ sql args db. execute_table args db;
}

contains_text-select :
    (name key s : String) (db : Table)
    → contains_text s (select name key db)
      ≡ listed db (record { index_name = name; index_key = key; indexed_key = s })
contains_text-select name key s [] = refl
contains_text-select name key s (r ∷ db) =
    ground
      (arith, contains_text-select name key s db, eq_iff s r.indexed_key, eq_iff r.indexed_key s)

insert_row_new : (r : Row) (db : Table) → listed db r ≡ false → insert_row r db ≡ (ok 1, r ∷ db)
insert_row_new r db h = rw h

insert_row_known :
    (r : Row) (db : Table)
    → listed db r ≡ true
    → insert_row r db ≡ (err "UNIQUE constraint failed", db)
insert_row_known r db h = rw h

pub sqlite_table-SqliteLaws : SqliteLaws sqlite_table TableReady listed
sqlite_table-SqliteLaws = record {
  unlocked = λ db _. refl;
  prepares = λ sort_results db _. refl;
  selects = λ sort_results name key db _.
      (select name key db, refl, λ s. contains_text-select name key s db);
  inserts = λ r db _ h. (r ∷ db, insert_row_new r db h, tt, λ q. refl);
  refuses = λ r db _ h. ("UNIQUE constraint failed", insert_row_known r db h);
}

pub postgres_table-PostgresLaws : PostgresLaws postgres_table TableReady listed
postgres_table-PostgresLaws = record {
  pooled = λ db _. refl;
  prepares = λ sort_results db _. refl;
  selects = λ sort_results name key db _.
      (select name key db, refl, λ s. contains_text-select name key s db);
  inserts = λ r db _ h. (r ∷ db, insert_row_new r db h, tt, λ q. refl);
  refuses = λ r db _ h. ("UNIQUE constraint failed", insert_row_known r db h);
}

-- A database that may lack the table: no statement on the table prepares or runs before it is made.
abbrev pub Database : Type 0
Database = Bool × Table

abbrev pub HasTable : Database → Type 0
HasTable db = db.0 ≡ true

abbrev pub rows_of : Database → Row → Bool
rows_of db r = listed db.1 r

abbrev insert_into : Bool → List String → Table → Result String ℕ × Database
insert_into true args rows = let (r, rows') = execute_table args rows in (r, (true, rows'))
insert_into false args rows = (err "no such table: accounts_index", (false, rows))

abbrev pub sqlite_database : SqliteEngine Database
sqlite_database = record {
  lock = λ db. true;
  prepare = λ sql db.
      if db.0 || str_eq sql exists_sql then ok tt else err "no such table: accounts_index";
  query_map = λ sql args db.
      if db.0 then ok (map ok (query_table args db.1)) else err "no such table: accounts_index";
  query_exists = λ sql db. ok db.0;
  execute = λ sql args db. insert_into db.0 args db.1;
  execute_batch = λ sql db. (ok tt, (true, db.1));
  statement_changed_rows = λ n. "StatementChangedRows";
}

insert_into_known :
    (made : Bool) (r : Row) (rows : Table)
    → made ≡ true
    → listed rows r ≡ true
    → insert_into made (r.index_name ∷ r.index_key ∷ r.indexed_key ∷ []) rows
      ≡ (err "UNIQUE constraint failed", (made, rows))
insert_into_known true r rows h known = rw known refl
insert_into_known false r rows h known = absurd (ground arith)

pub sqlite_database-SqliteLaws : SqliteLaws sqlite_database HasTable rows_of
sqlite_database-SqliteLaws = record {
  unlocked = λ db _. refl;
  prepares = λ sort_results db h. rw h refl;
  selects = λ sort_results name key db h.
      (select name key db.1, rw h refl, λ s. contains_text-select name key s db.1);
  inserts = λ r db h new. ((true, r ∷ db.1), rw (h, new) refl, refl, λ q. refl);
  refuses = λ r db h known. ("UNIQUE constraint failed", insert_into_known db.0 r db.1 h known);
}
