-- ===== src/Index/Contract.antt =====
-- db/index/traits.rs: what an implementation of the index promises, as a set of entries that forgets
-- the rows and their order, and the facts on key texts that both implementations need.
use text.Mathlib.Text.{◌==◌ as str_eq}
use text.Mathlib.TextEquality.{eq_iff}
use noir_sidecar.Prelude.{
  ◌≡◌, refl, ap, sym, String, Bool, true, false, ◌&&◌, ◌||◌, List, [], ◌∷◌, map, ◌==◌, arith, inl,
  inr, Bool-cases,
}
use noir_sidecar.Prelude.Result.{ok, err}
use noir_sidecar.Sdk.{Pubkey}
use noir_sidecar.Index.{
  Error, AccountIndex, program_id, spl_token_mint, spl_token_owner, get_index_name, Indexer,
  KeyText, KeyTextLaws, Row, row_eq, row_of,
}

abbrev pub contains_key : Pubkey → List Pubkey → Bool
contains_key x [] = false
contains_key x (y ∷ ys) = x == y || contains_key x ys

abbrev pub contains_text : String → List String → Bool
contains_text s [] = false
contains_text s (t ∷ ts) = str_eq s t || contains_text s ts

abbrev pub same_index : AccountIndex → AccountIndex → Bool
same_index program_id program_id = true
same_index spl_token_mint spl_token_mint = true
same_index spl_token_owner spl_token_owner = true
same_index _ _ = false

-- Whether an entry of the index is listed, for each state of the database.
abbrev pub View : Type 0 → Type 0
View S = S → AccountIndex → Pubkey → Pubkey → Bool

-- The state `t` is `s` with one more entry.
abbrev pub Adds : {S : Type 0} → View S → AccountIndex → Pubkey → Pubkey → S → S → Type 0
Adds view i k x s t =
    (j : AccountIndex) (l y : Pubkey)
    → view t j l y ≡ (same_index i j && k == l && x == y || view s j l y)

-- A set of entries: an entry is added once, a second insertion fails and changes nothing, and a
-- lookup lists the keys under an index key, no more and no fewer.
pub record Implements {S : Type 0} (indexer : Indexer S) (IsValid : S → Type 0) (view : View S)
    : Type 0 where
  pub insert_new :
      (i : AccountIndex) (k x : Pubkey) (s : S)
      → IsValid s
      → view s i k x ≡ false
      → (t : S) × (indexer.insert_index i k x s ≡ (ok tt, t)) × IsValid t × Adds view i k x s t
  pub insert_known :
      (i : AccountIndex) (k x : Pubkey) (s : S)
      → IsValid s
      → view s i k x ≡ true
      → (e : Error) × (indexer.insert_index i k x s ≡ (err e, s))
  pub lookup :
      (i : AccountIndex) (k : Pubkey) (sort_results : Bool) (s : S)
      → IsValid s
      → (found : List Pubkey) × (indexer.get_indexed_keys i k sort_results s ≡ (ok found, s))
        × ((x : Pubkey) → contains_key x found ≡ view s i k x)

name_eq : (i j : AccountIndex) → str_eq (get_index_name i) (get_index_name j) ≡ same_index i j
unfolding get_index_name
name_eq program_id program_id = refl
name_eq program_id spl_token_mint = refl
name_eq program_id spl_token_owner = refl
name_eq spl_token_mint program_id = refl
name_eq spl_token_mint spl_token_mint = refl
name_eq spl_token_mint spl_token_owner = refl
name_eq spl_token_owner program_id = refl
name_eq spl_token_owner spl_token_mint = refl
name_eq spl_token_owner spl_token_owner = refl

module _ (keys : KeyText) (laws : KeyTextLaws keys) where
  to_string_inj : (k l : Pubkey) → keys.to_string k ≡ keys.to_string l → k ≡ l
  to_string_inj k l e =
      cc (ap keys.from_str e, laws.from_str-to_string k, laws.from_str-to_string l)

  pub to_string-eq : (k l : Pubkey) → str_eq (keys.to_string k) (keys.to_string l) ≡ (k == l)
  to_string-eq k l =
      ground
        (arith, eq_iff (keys.to_string k) (keys.to_string l), to_string_inj k l, ap keys.to_string)

  pub row_eq-row_of :
      (i j : AccountIndex) (k l x y : Pubkey)
      → row_eq (row_of keys i k x) (row_of keys j l y) ≡ (same_index i j && k == l && x == y)
  row_eq-row_of i j k l x y = rw (name_eq i j, to_string-eq k l, to_string-eq x y)

  pub contains_text-map :
      (x : Pubkey) (ps : List Pubkey)
      → contains_text (keys.to_string x) (map keys.to_string ps) ≡ contains_key x ps
  contains_text-map x [] = refl
  contains_text-map x (p ∷ ps) = rw (to_string-eq x p, contains_text-map x ps)

  -- Texts that are all key texts are the texts of some keys.
  pub key_texts :
      (ss : List String)
      → ((s : String) → contains_text s ss ≡ true → (p : Pubkey) × (s ≡ keys.to_string p))
      → (ps : List Pubkey) × (ss ≡ map keys.to_string ps)
  key_texts [] h = ([], refl)
  key_texts (s ∷ ss) h =
      let (p, e) = h s (ground (arith, eq_iff s s)) in
      let (ps, es) = key_texts ss (λ t m. h t (ground (arith, m))) in (p ∷ ps, cc (e, es))

module _ {Db : Type 0} (keys : KeyText) (holds : Db → Row → Bool) where
  -- Every indexed key in the table is the text of a key.
  abbrev pub IsKeyed : Db → Type 0
  IsKeyed db = (r : Row) → holds db r ≡ true → (p : Pubkey) × (r.indexed_key ≡ keys.to_string p)

  abbrev pub row_view : View Db
  row_view db i k x = holds db (row_of keys i k x)

  pub Keyed-insert :
      (i : AccountIndex) (k x : Pubkey) (r : Row) (db : Db)
      → IsKeyed db
      → (row_eq (row_of keys i k x) r || holds db r) ≡ true
      → (p : Pubkey) × (r.indexed_key ≡ keys.to_string p)
  Keyed-insert i k x r db keyed m = elim (Bool-cases (str_eq (keys.to_string x) r.indexed_key)) [
    | inl same ↦ (x, sym ((eq_iff (keys.to_string x) r.indexed_key).0 same))
    | inr other ↦ keyed r (ground (arith, other))
  ]
