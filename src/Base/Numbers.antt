-- ===== src/Base/Numbers.antt =====
-- Remainders.
use Prim.Native.Nat.{ℕ, ◌+◌, ◌-◌, ◌%◌, ◌<◌}
use mathlib.Core.Path.{◌≡◌}
use mathlib.Core.Logic.{◌≢◌}
use native.Mathlib.Decide.{dec_le}
use native.Mathlib.Nat.{mod-eq_of_lt, add-mod_right}
use native.Mathlib.Omega.{arith}

-- Numbers less than `size` apart leave different remainders.
pub mod_distinct : (k n size : ℕ) → k < n → n < k + size → k % size ≢ n % size
mod_distinct k n size h l e = grind arith

-- From any start, `n` steps round a ring of `n` places reach every place.
pub ring_reach : (start x n : ℕ) → start < n → x < n → (i : ℕ) × (i < n) × ((start + i) % n ≡ x)
ring_reach start x n h k = elim (dec_le start x) [
  | yes le ↦ (x - start, omega arith, ground (arith, mod-eq_of_lt k))
  | no gt ↦ (x + n - start, omega arith, ground (arith, mod-eq_of_lt k, add-mod_right x n))
]
