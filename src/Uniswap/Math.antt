-- ===== src/Uniswap/Math.antt =====
-- uniswap-rust/src/math.rs: the square root of a `U256`.
pub mod Sqrt
use risc_v_rust.Base.{ℕ, zero, suc, ◌+◌, ◌/◌, Option, none, some, ltb, ◌==◌, if◌then◌else◌}
use risc_v_rust.Base.Word.{add256}

-- The `while x < z` loop; `none` means that the fuel ran out.
pub sqrt_loop : ℕ → ℕ → ℕ → ℕ → Option ℕ
sqrt_loop zero y z x = none
sqrt_loop (suc fuel) y z x =
    let rest = sqrt_loop fuel y x (add256 (y / x) x / 2) in if ltb x z then rest else some z

-- `y` rounds are more than the loop makes.
pub sqrt_u256 : ℕ → Option ℕ
sqrt_u256 y =
    if ltb 3 y then sqrt_loop y y y (add256 (y / 2) 1) else if ltb 0 y then some 1 else some 0
