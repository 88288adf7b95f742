-- ===== src/Index.antt =====
-- db/index/mod.rs, db/index/traits.rs: the accounts index. An implementation is an `Indexer` over the
-- state of its database.
pub mod Sqlite
pub mod Postgres
pub mod Update
pub mod Contract
pub mod Open
pub mod Tested
pub mod Creation
pub mod Samples
use text.Mathlib.Text.{◌==◌ as str_eq}
use noir_sidecar.Prelude.{ℕ, ◌≡◌, String, Bool, true, false, ◌&&◌, List}
use noir_sidecar.Prelude.Result.{Result, ok, err}
use noir_sidecar.Sdk.{Pubkey}
use noir_sidecar.Client.{Error as ClientError}

-- The payloads of the database errors and of `parse_pubkey_error` are foreign, kept as debug texts.
pub data Error : Type 0 where
  sqlite_error : String → Error
  postgres_error : String → Error
  parse_pubkey_error : String → Error
  unexpected_row_count : ℕ → Error
  mutex_error : Error
  pool_error : Error
  client_error : ClientError → Error
  program_error : String → Error

-- The enum of `solana_accounts_db`.
pub data AccountIndex : Type 0 where
  program_id spl_token_mint spl_token_owner : AccountIndex

unfoldable pub get_index_name : AccountIndex → String
get_index_name program_id = "program_id"
get_index_name spl_token_mint = "spl_token_mint"
get_index_name spl_token_owner = "spl_token_owner"

-- A statement on a database of state `S`: its result, and the state after it.
abbrev pub Exec : Type 0 → Type 0 → Type 0
Exec S A = S → Result Error A × S

module _ {S A B : Type 0} where
  abbrev pub continue : Result Error A × S → (A → Exec S B) → Result Error B × S
  continue (ok a, s) f = f a s
  continue (err e, s) f = (err e, s)

  infixl 5 ◌>>=◌ ◌>>◌
  abbrev pub ◌>>=◌ : Exec S A → (A → Exec S B) → Exec S B
  ◌>>=◌ m f s = continue (m s) f

  abbrev pub ◌>>◌ : Exec S A → Exec S B → Exec S B
  m >> k = m >>= λ _. k

module _ {S A : Type 0} where
  abbrev pub pure : A → Exec S A
  pure a s = (ok a, s)

  abbrev pub lift : Result Error A → Exec S A
  lift r s = (r, s)

-- `traits::AccountsIndex`.
pub record Indexer (S : Type 0) : Type 0 where
  pub get_indexed_keys : AccountIndex → Pubkey → Bool → Exec S (List Pubkey)
  pub insert_index : AccountIndex → Pubkey → Pubkey → Exec S (Unit {0})
  pub create_index : Exec S (Unit {0})

-- The text of a key, base58 in `solana_sdk`.
pub record KeyText : Type 0 where
  pub to_string : Pubkey → String
  pub from_str : String → Result String Pubkey

pub record KeyTextLaws (keys : KeyText) : Type 0 where
  pub from_str-to_string : (p : Pubkey) → keys.from_str (keys.to_string p) ≡ ok p

-- A row of the table `accounts_index`.
pub record Row : Type 0 where
  pub index_name : String
  pub index_key : String
  pub indexed_key : String

abbrev pub row_eq : Row → Row → Bool
row_eq r s =
    str_eq r.index_name s.index_name
    && str_eq r.index_key s.index_key
    && str_eq r.indexed_key s.indexed_key

abbrev pub row_of : KeyText → AccountIndex → Pubkey → Pubkey → Row
row_of keys index index_key indexed_key = record {
  index_name = get_index_name index;
  index_key = keys.to_string index_key;
  indexed_key = keys.to_string indexed_key;
}
