-- ===== src/Client/Node.antt =====
-- The state that the asynchronous code threads: the node behind the client's channel, with the
-- requests sent to it so far. A computation returns, fails or panics.
use noir_sidecar.Prelude.{◌≡◌, refl, String, Option, none, some, List, arith}
use noir_sidecar.Prelude.Result.{Result, ok, err}
use noir_sidecar.Client.{Response, Request}

-- What becomes of a request: it cannot be sent, its oneshot channel closes, or it is answered. The
-- texts are those of the channels' errors.
pub data Delivery : Type 0 where
  unsent : String → Delivery
  dropped : String → Delivery
  answered : Response → Delivery

-- `deliver` may look at the whole history, newest request first, so the node may change its mind.
pub record Node : Type 0 where
  pub deliver : List Request → Request → Delivery
  pub sent : List Request

pub data Outcome (E A : Type 0) : Type 0 where
  returned : Result E A → Outcome E A
  panicked : Outcome E A

abbrev pub Io : Type 0 → Type 0 → Type 0
Io E A = Node → Outcome E A × Node

module _ {E A : Type 0} where
  abbrev pub pure : A → Io E A
  pure a n = (returned (ok a), n)

  abbrev pub fail : E → Io E A
  fail e n = (returned (err e), n)

  abbrev pub lift : Result E A → Io E A
  lift r n = (returned r, n)

  abbrev pub panic : Io E A
  panic n = (panicked, n)

  abbrev pub unwrap : Option A → Io E A
  unwrap none n = (panicked, n)
  unwrap (some a) n = (returned (ok a), n)

module _ {E A B : Type 0} where
  abbrev pub continue : Outcome E A × Node → (A → Io E B) → Outcome E B × Node
  continue (returned (ok a), n) f = f a n
  continue (returned (err e), n) f = (returned (err e), n)
  continue (panicked, n) f = (panicked, n)

  infixl 5 ◌>>=◌ ◌>>◌
  abbrev pub ◌>>=◌ : Io E A → (A → Io E B) → Io E B
  ◌>>=◌ m f n = continue (m n) f

  abbrev pub ◌>>◌ : Io E A → Io E B → Io E B
  m >> k = m >>= λ _. k

  continue-eq-ok :
      (o : Outcome E A × Node) (f : A → Io E B) {b : B} {n' : Node}
      → continue o f ≡ (returned (ok b), n')
      → (a : A) × (m : Node) × (o ≡ (returned (ok a), m)) × (f a m ≡ (returned (ok b), n'))
  continue-eq-ok (returned (ok a), n) f h = (a, n, refl, h)
  continue-eq-ok (returned (err e), n) f h = cc
  continue-eq-ok (panicked, n) f h = cc

  -- Inversion of a chain that returned a value.
  pub >>=-eq-ok :
      (m : Io E A) (f : A → Io E B) (n : Node) {b : B} {n' : Node}
      → (m >>= f) n ≡ (returned (ok b), n')
      → (a : A) × (n₁ : Node) × (m n ≡ (returned (ok a), n₁)) × (f a n₁ ≡ (returned (ok b), n'))
  >>=-eq-ok m f n h = continue-eq-ok (m n) f h

module _ {E F A : Type 0} where
  abbrev pub rethrow : (E → F) → Outcome E A × Node → Outcome F A × Node
  rethrow g (returned (ok a), n) = (returned (ok a), n)
  rethrow g (returned (err e), n) = (returned (err (g e)), n)
  rethrow g (panicked, n) = (panicked, n)

  -- `.await.map_err(g)`.
  abbrev pub map_err_io : (E → F) → Io E A → Io F A
  map_err_io g m n = rethrow g (m n)

  rethrow-eq-ok :
      (g : E → F) (o : Outcome E A × Node) {a : A} {n' : Node}
      → rethrow g o ≡ (returned (ok a), n')
      → o ≡ (returned (ok a), n')
  rethrow-eq-ok g (returned (ok a), n) h = ground arith
  rethrow-eq-ok g (returned (err e), n) h = cc
  rethrow-eq-ok g (panicked, n) h = cc

  pub map_err_io-eq-ok :
      (g : E → F) (m : Io E A) (n : Node) {a : A} {n' : Node}
      → map_err_io g m n ≡ (returned (ok a), n')
      → m n ≡ (returned (ok a), n')
  map_err_io-eq-ok g m n h = rethrow-eq-ok g (m n) h
