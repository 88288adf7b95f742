-- ===== src/Prelude/Result.antt =====
-- `Result<A, E>`, its `?` operator, and the collection of an iterator of results.
use mathlib.Core.Path.{◌≡◌, refl, ap, ap₂, sym, ◌∙◌}
use mathlib.Core.Logic.{◌⊎◌, inl, inr}
use mathlib.Core.Option.{Option, none, some}
use mathlib.Core.List.{List, [], ◌∷◌, map}

pub data Result {ℓ κ} (E : Type κ) (A : Type ℓ) : Type (ℓ ⊔ κ) where
  ok : A → Result E A
  err : E → Result E A

module _ {ℓ κ μ} {E : Type κ} {A : Type ℓ} {B : Type μ} where
  infixl 5 ◌>>=◌
  abbrev pub ◌>>=◌ : Result E A → (A → Result E B) → Result E B
  ok a >>= f = f a
  err e >>= f = err e

  -- A `?` that went through: what stood before it, and what it continued with.
  pub >>=-eq-ok :
      (first : Result E A) (next : A → Result E B) {final : B}
      → (first >>= next) ≡ ok final
      → (middle : A) × (first ≡ ok middle) × (next middle ≡ ok final)
  >>=-eq-ok (err e) next h = cc
  >>=-eq-ok (ok middle) next h = (middle, refl, h)

module _ {ℓ κ μ} {E : Type κ} {A : Type ℓ} {F : Type μ} where
  abbrev pub map_err : (E → F) → Result E A → Result F A
  map_err f (ok a) = ok a
  map_err f (err e) = err (f e)

module _ {ℓ κ} {E : Type κ} {A : Type ℓ} where
  -- `Result::ok`.
  abbrev pub to_option : Result E A → Option A
  to_option (ok a) = some a
  to_option (err e) = none

  -- `Option::ok_or`.
  abbrev pub ok_or : E → Option A → Result E A
  ok_or e none = err e
  ok_or e (some a) = ok a

  abbrev cons_result : Result E A → Result E (List A) → Result E (List A)
  cons_result (ok a) (ok as') = ok (a ∷ as')
  cons_result (ok a) (err e) = err e
  cons_result (err e) rest = err e

  -- `collect::<Result<Vec<_>, _>>`: the first error stops the collection.
  unfoldable pub collect : List (Result E A) → Result E (List A)
  collect [] = ok []
  collect (r ∷ rs) = cons_result r (collect rs)

  pub Result-cases : (r : Result E A) → ((a : A) × (r ≡ ok a)) ⊎ ((e : E) × (r ≡ err e))
  Result-cases (ok a) = inl (a, refl)
  Result-cases (err e) = inr (e, refl)

  cons_result-eq-ok :
      (r : Result E A) (rs : Result E (List A)) {xs : List A}
      → cons_result r rs ≡ ok xs
      → (a : A) × (ys : List A) × (r ≡ ok a) × (rs ≡ ok ys) × (xs ≡ a ∷ ys)
  cons_result-eq-ok (ok a) (ok ys) h = (a, ys, refl, refl, cc)
  cons_result-eq-ok (ok a) (err e) h = cc
  cons_result-eq-ok (err e) rs h = cc

  pub map_ok-collect : (rs : List (Result E A)) (xs : List A) → collect rs ≡ ok xs → rs ≡ map ok xs
  unfolding collect
  map_ok-collect [] xs h = cc
  map_ok-collect (r ∷ rs) xs h =
      let (a, ys, here, rest, e) = cons_result-eq-ok r (collect rs) h in
      ap₂ (λ t u. t ∷ u) here (map_ok-collect rs ys rest) ∙ sym (ap (map ok) e)
