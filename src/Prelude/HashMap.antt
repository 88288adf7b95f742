-- ===== src/Prelude/HashMap.antt =====
-- `std::collections::HashMap` with numbers for keys: an association list with one entry for each
-- key. The entries stand in the order of first insertion. The source leaves the order of
-- iteration open, and code whose result shows it takes the order from a parameter.
use Prim.Native.Nat.{ℕ}
use mathlib.Core.Path.{◌≡◌, refl}
use mathlib.Core.Option.{Option, none, some}
use mathlib.Core.List.{List, [], ◌∷◌, map}
use native.Mathlib.Omega.{arith}
use noir_sidecar.Prelude.Tests.{◌==◌, if◌then◌else◌, or_else}

module _ {ℓ} where
  abbrev pub HashMap : Type ℓ → Type ℓ
  HashMap V = List (ℕ × V)

module _ {ℓ} {V : Type ℓ} where
  unfoldable pub get : ℕ → HashMap V → Option V
  get k [] = none
  get k ((j, v) ∷ m) = let rest = get k m in if j == k then some v else rest

  unfoldable pub insert : ℕ → V → HashMap V → HashMap V
  insert k v [] = (k, v) ∷ []
  insert k v ((j, w) ∷ m) = let rest = insert k v m in if j == k then (k, v) ∷ m else (j, w) ∷ rest

  insert_all : HashMap V → List (ℕ × V) → HashMap V
  insert_all m [] = m
  insert_all m ((k, v) ∷ entries) = insert_all (insert k v m) entries

  -- `collect::<HashMap<_, _>>`: a later entry replaces an earlier one with its key.
  unfoldable pub collect : List (ℕ × V) → HashMap V
  unfolding insert_all insert
  collect entries = insert_all [] entries

  abbrev pub values : HashMap V → List V
  values m = map (λ p. p.1) m

  pub get-insert :
      (k j : ℕ) (v : V) (m : HashMap V)
      → get j (insert k v m) ≡ (if k == j then some v else get j m)
  unfolding get insert
  get-insert k j v [] = refl
  get-insert k j v ((i, w) ∷ m) = ground (arith, get-insert k j v m)

  -- The entry that a collection leaves under a key: the last one listed.
  abbrev pub last_entry : ℕ → List (ℕ × V) → Option V
  last_entry k [] = none
  last_entry k ((j, v) ∷ entries) = or_else (last_entry k entries) (if j == k then some v else none)

  get-insert_all :
      (k : ℕ) (m : HashMap V) (entries : List (ℕ × V))
      → get k (insert_all m entries) ≡ or_else (last_entry k entries) (get k m)
  unfolding insert_all
  get-insert_all k m [] = refl
  get-insert_all k m ((j, v) ∷ entries) =
      rw (get-insert_all k (insert j v m) entries, get-insert j k v m) (ground arith)

  or_else-none : (o : Option V) → or_else o none ≡ o
  or_else-none none = refl
  or_else-none (some v) = refl

  pub get-collect :
      (k : ℕ) (entries : List (ℕ × V)) → get k (collect entries) ≡ last_entry k entries
  unfolding collect get
  get-collect k entries = rw (get-insert_all k [] entries) (or_else-none (last_entry k entries))
