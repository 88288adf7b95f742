-- ===== src/Prelude/Lists.antt =====
-- Lists measured by native numbers, the iterator adapters that the source chains, and predicates.
use Prim.Native.Nat.{ℕ, suc, ◌+◌}
use mathlib.Core.Path.{◌≡◌, refl, ap}
use mathlib.Core.Bool.{Bool, true, false, ◌&&◌}
use mathlib.Core.Logic.{◌⊎◌}
use mathlib.Core.List.{List, [], ◌∷◌, ◌++◌, map}
use mathlib.Core.Option.{Option, none, some}
use native.Mathlib.Omega.{arith}
use noir_sidecar.Prelude.Tests.{if◌then◌else◌}

module _ {ℓ} {A : Type ℓ} where
  abbrev pub length : List A → ℕ
  length [] = 0
  length (x ∷ xs) = suc (length xs)

  abbrev pub is_empty : List A → Bool
  is_empty [] = true
  is_empty (x ∷ xs) = false

  -- `Iterator::filter` with a Boolean closure.
  abbrev pub filter : (A → Bool) → List A → List A
  filter p [] = []
  filter p (x ∷ xs) = let rest = filter p xs in if p x then x ∷ rest else rest

  -- `Iterator::all`.
  abbrev pub all : (A → Bool) → List A → Bool
  all p [] = true
  all p (x ∷ xs) = p x && all p xs

  pub length-append : (xs ys : List A) → length (xs ++ ys) ≡ length xs + length ys
  length-append [] ys = omega arith
  length-append (x ∷ xs) ys = omega (arith, length-append xs ys)

abbrev cons_some {ℓ} : {B : Type ℓ} → Option B → List B → List B
cons_some none ys = ys
cons_some (some y) ys = y ∷ ys

module _ {ℓ κ} {A : Type ℓ} {B : Type κ} where
  pub length-map : (f : A → B) (xs : List A) → length (map f xs) ≡ length xs
  length-map f [] = refl
  length-map f (x ∷ xs) = ap suc (length-map f xs)

  -- `Iterator::filter_map`.
  abbrev pub filter_map : (A → Option B) → List A → List B
  filter_map f [] = []
  filter_map f (x ∷ xs) = cons_some (f x) (filter_map f xs)

  -- `Iterator::zip`, which stops with the shorter list.
  abbrev pub zip : List A → List B → List (A × B)
  zip [] ys = []
  zip (x ∷ xs) [] = []
  zip (x ∷ xs) (y ∷ ys) = (x, y) ∷ zip xs ys

  pub map-zip_fst :
      (xs : List A) (ys : List B) → length xs ≡ length ys → map (λ p. p.0) (zip xs ys) ≡ xs
  map-zip_fst [] ys h = refl
  map-zip_fst (x ∷ xs) [] h = absurd (omega arith)
  map-zip_fst (x ∷ xs) (y ∷ ys) h = ap (λ t. x ∷ t) (map-zip_fst xs ys (omega arith))

module _ {ℓ κ} {A : Type ℓ} (P : A → Type κ) where
  abbrev pub All : List A → Type κ
  All [] = Unit
  All (x ∷ xs) = P x × All xs

  pub All-append : (xs ys : List A) → All xs → All ys → All (xs ++ ys)
  All-append [] ys hx hy = hy
  All-append (x ∷ xs) ys hx hy = (hx.0, All-append xs ys hx.1 hy)

-- Some element satisfies the predicate.
abbrev pub Occurs {ℓ} : {A : Type ℓ} → (A → Type 0) → List A → Type 0
Occurs P [] = ⊥
Occurs P (x ∷ xs) = P x ⊎ Occurs P xs
