-- ===== src/Prelude/Words.antt =====
-- `u64::from_le_bytes`, `as i64`, and `u32::saturating_add`.
use Prim.Native.Nat.{ℕ, zero, suc, ◌+◌, ◌-◌, ◌*◌, ◌/◌, ◌%◌, ◌^◌, ◌<◌, min}
use mathlib.Core.Path.{◌≡◌, refl}
use mathlib.Core.List.{List, [], ◌∷◌}
use native.Mathlib.Omega.{arith}
use mathlib.Core.Logic.{◌⊎◌, inl, inr}
use native.Mathlib.Nat.{pow-suc}
use noir_sidecar.Prelude.Tests.{ltb, if◌then◌else◌, Bool-cases, ltb→lt}
use noir_sidecar.Prelude.Lists.{length}

-- `negsuc n` is -(n + 1).
pub data ℤ : Type 0 where
  pos : ℕ → ℤ
  negsuc : ℕ → ℤ

unfoldable pub from_le_bytes : List ℕ → ℕ
from_le_bytes [] = 0
from_le_bytes (b ∷ bs) = b + 256 * from_le_bytes bs

-- The `k` bytes of a number, the lowest first.
unfoldable pub to_le_bytes : ℕ → ℕ → List ℕ
to_le_bytes zero n = []
to_le_bytes (suc k) n = n % 256 ∷ to_le_bytes k (n / 256)

unfoldable pub as_i64 : ℕ → ℤ
as_i64 n = if ltb n (2 ^ 63) then pos n else negsuc (2 ^ 64 - 1 - n)

unfoldable pub saturating_add_u32 : ℕ → ℕ → ℕ
saturating_add_u32 a b = min (a + b) (2 ^ 32 - 1)

pub length-to_le_bytes : (k n : ℕ) → length (to_le_bytes k n) ≡ k
unfolding to_le_bytes
length-to_le_bytes zero n = refl
length-to_le_bytes (suc k) n = omega (arith, length-to_le_bytes k (n / 256))

div-lt-pow : (k n : ℕ) → n < 256 ^ suc k → n / 256 < 256 ^ k
div-lt-pow k n h = omega (arith, pow-suc 256 k)

pub from_le_bytes-to_le_bytes : (k n : ℕ) → n < 256 ^ k → from_le_bytes (to_le_bytes k n) ≡ n
unfolding from_le_bytes to_le_bytes
from_le_bytes-to_le_bytes zero n h = omega arith
from_le_bytes-to_le_bytes (suc k) n h =
    omega (arith, from_le_bytes-to_le_bytes k (n / 256) (div-lt-pow k n h))

-- Two's complement: a number below 2 ^ 63 is itself, and one above it is its distance to 2 ^ 64,
-- negated.
pub as_i64_lem :
    (n : ℕ)
    → n < 2 ^ 64
    → ((n < 2 ^ 63) × (as_i64 n ≡ pos n)) ⊎ ((k : ℕ) × (as_i64 n ≡ negsuc k) × (n + suc k ≡ 2 ^ 64))
unfolding as_i64
as_i64_lem n h = elim (Bool-cases (ltb n (2 ^ 63))) [
  | inl small ↦ inl (ltb→lt n (2 ^ 63) small, rw small)
  | inr large ↦ inr (2 ^ 64 - 1 - n, rw large, omega arith)
]
