-- ===== src/Base/Word.antt =====
-- The unsigned 256-bit integers of alloy_primitives: `+`, `-` and `*` wrap. The release build has
-- overflow checks off, so the primitive types wrap in the same way.
use Prim.Native.Nat.{ℕ, ◌+◌, ◌-◌, ◌*◌, ◌%◌, ◌^◌, ◌≤◌}
use native.Mathlib.Omega.{arith}

abbrev pub u256_mod : ℕ
u256_mod = 2 ^ 256

-- `U256::MAX`
abbrev pub u256_max : ℕ
u256_max = 2 ^ 256 - 1

abbrev pub add256 : ℕ → ℕ → ℕ
add256 a b = (a + b) % 2 ^ 256

abbrev pub sub256 : ℕ → ℕ → ℕ
sub256 a b = (a + 2 ^ 256 - b) % 2 ^ 256

abbrev pub mul256 : ℕ → ℕ → ℕ
mul256 a b = a * b % 2 ^ 256

abbrev pub shl256 : ℕ → ℕ → ℕ
shl256 a k = a * 2 ^ k % 2 ^ 256

-- Products are monotone.
pub mul_mono : (q a b : ℕ) → a ≤ b → q * a ≤ q * b
mul_mono q a b h = grind arith
