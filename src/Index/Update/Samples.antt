-- ===== src/Index/Update/Samples.antt =====
-- db/index: token crates and a token account, and the index on a list of rows.
use noir_sidecar.Prelude.{String, false, [], ◌∷◌, ◌==◌}
use noir_sidecar.Prelude.Result.{Result, ok, err}
use noir_sidecar.Sdk.{Bytes, Account}
use noir_sidecar.Index.Contract.{Implements, IsKeyed, row_view}
use noir_sidecar.Index.Samples.{
  unary_keys, unary-KeyTextLaws, listed, sqlite_table, sqlite_table-SqliteLaws, TableReady, Table,
}
use noir_sidecar.Index.Sqlite
use noir_sidecar.Index.Sqlite.Refines.{sqlite-Implements}
use noir_sidecar.Index.Update.{TokenCrates, TokenAccount}

-- The sound states of the list of rows.
abbrev pub TableSound : Table → Type 0
TableSound db = TableReady db × IsKeyed unary_keys listed db

abbrev pub sqlite_contract :
    Implements (Sqlite.indexer sqlite_table unary_keys) TableSound (row_view unary_keys listed)
sqlite_contract =
    sqlite-Implements sqlite_table unary_keys TableReady listed unary-KeyTextLaws
      sqlite_table-SqliteLaws

-- Program 6 is the token program; an account's bytes are its mint and its owner.
abbrev pub unpack_pair : Bytes → Result String TokenAccount
unpack_pair (m ∷ o ∷ []) = ok (record { mint = m; owner = o })
unpack_pair _ = err "InvalidAccountData"

abbrev pub crates : TokenCrates
crates = record {
  is_known_spl_token_id = λ p. p == 6;
  unpack = unpack_pair;
  decode_pubkeys = λ bytes. ok bytes;
}

abbrev pub token : Account
token = record {
  lamports = 1;
  contents = 20 ∷ 30 ∷ [];
  owner = 6;
  executable = false;
  rent_epoch = 0;
}

pub empty-IsKeyed : IsKeyed unary_keys listed []
empty-IsKeyed r h = cc

pub empty-TableSound : TableSound []
empty-TableSound = (tt, empty-IsKeyed)
