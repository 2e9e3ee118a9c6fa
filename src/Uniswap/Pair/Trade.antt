-- ===== src/Uniswap/Pair/Trade.antt =====
-- `swap`, `skim` and `sync` (lines 378 to 488).
pub mod Product
use risc_v_rust.Base.{ℕ, ◌==◌, ◌&&◌, ◌||◌, ltb, leb, Bool, [], if◌then◌else◌}
use risc_v_rust.Base.Bytes.{Bytes, bytes_eq}
use risc_v_rust.Base.Word.{sub256, mul256}
use risc_v_rust.Uniswap.Host.{
  M, Host, when, gets, modify, return_value, unwrap_or_revert, ◌>>=◌, ◌>>◌,
}
use risc_v_rust.Uniswap.Pair.Abi.{Decoders}
use risc_v_rust.Uniswap.Pair.State.{get_token0, get_token1, get_reserves, set_reserves}
use risc_v_rust.Uniswap.Pair.Calls.{
  require_unlocked, set_unlocked, unlock_and_revert_if, safe_transfer, safe_balance_of, now_secs,
  to_u128,
}

-- What came in of a token: the balance above what the reserve would be without it.
unfoldable pub amount_in : ℕ → ℕ → ℕ → ℕ
amount_in balance reserve amount_out =
    let kept = sub256 reserve amount_out in if ltb kept balance then sub256 balance kept else 0

-- A balance in thousandths, less the fee of three thousandths of what came in.
unfoldable pub adjusted : ℕ → ℕ → ℕ
adjusted balance amount = sub256 (mul256 balance 1000) (mul256 amount 3)

-- The last guard of a swap: the product of the adjusted balances is too small.
unfoldable pub product_falls : ℕ → ℕ → ℕ → ℕ → Bool
product_falls adj0 adj1 reserve0 reserve1 =
    ltb (mul256 adj0 adj1) (mul256 (mul256 (mul256 reserve0 reserve1) 1000) 1000)

module _ {E : Type 0} (abi : Decoders) (host : Host E) where
  open host use {address}

  unfoldable pub swap : Bytes → M E (Unit {0})
  swap call_data = do
    require_unlocked
    decoded ← unwrap_or_revert (abi.swap call_data)
    let amount0_out = decoded.0
    let amount1_out = decoded.1
    let to = decoded.2
    unlock_and_revert_if (amount0_out == 0 && amount1_out == 0)
    reserves ← gets get_reserves
    let reserve0 = reserves.0
    let reserve1 = reserves.1
    unlock_and_revert_if (leb reserve0 amount0_out || leb reserve1 amount1_out)
    token0 ← gets get_token0
    token1 ← gets get_token1
    unlock_and_revert_if (bytes_eq to token0 || bytes_eq to token1)
    when (ltb 0 amount0_out) (safe_transfer host token0 to amount0_out)
    when (ltb 0 amount1_out) (safe_transfer host token1 to amount1_out)
    balance0 ← safe_balance_of host token0 address
    balance1 ← safe_balance_of host token1 address
    let amount0_in = amount_in balance0 reserve0 amount0_out
    let amount1_in = amount_in balance1 reserve1 amount1_out
    unlock_and_revert_if (amount0_in == 0 && amount1_in == 0)
    let adj0 = adjusted balance0 amount0_in
    let adj1 = adjusted balance1 amount1_in
    unlock_and_revert_if (product_falls adj0 adj1 reserve0 reserve1)
    r0 ← to_u128 balance0
    r1 ← to_u128 balance1
    ts ← now_secs host
    modify (set_reserves r0 r1 ts)
    set_unlocked
    return_value []

  unfoldable pub skim : Bytes → M E (Unit {0})
  skim call_data = do
    require_unlocked
    to ← unwrap_or_revert (abi.skim call_data)
    reserves ← gets get_reserves
    token0 ← gets get_token0
    token1 ← gets get_token1
    balance0 ← safe_balance_of host token0 address
    balance1 ← safe_balance_of host token1 address
    safe_transfer host token0 to (sub256 balance0 reserves.0)
    safe_transfer host token1 to (sub256 balance1 reserves.1)
    set_unlocked
    return_value []

  unfoldable pub sync : M E (Unit {0})
  sync = do
    require_unlocked
    token0 ← gets get_token0
    token1 ← gets get_token1
    balance0 ← safe_balance_of host token0 address
    balance1 ← safe_balance_of host token1 address
    reserves ← gets get_reserves
    r0 ← to_u128 balance0
    r1 ← to_u128 balance1
    modify (set_reserves r0 r1 reserves.2)
    set_unlocked
    return_value []
