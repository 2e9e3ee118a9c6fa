-- ===== src/Uniswap/Pair/Liquidity.antt =====
-- `initialize`, `mint` and `burn` (lines 266 to 376).
pub mod Shares
pub mod Supply
use risc_v_rust.Base.{ℕ, [], ◌==◌, ◌||◌, ltb, leb, not, if◌then◌else◌}
use risc_v_rust.Base.Bytes.{Bytes, zeros}
use risc_v_rust.Base.Word.{add256, sub256, mul256}
use risc_v_rust.Uniswap.Math.{sqrt_u256}
use risc_v_rust.Uniswap.Host.{
  M, Host, pure, gets, modify, return_value, unwrap, unwrap_or_revert, checked_div, ◌>>=◌, ◌>>◌,
}
use risc_v_rust.Uniswap.Slots.{storage_get_u256, storage_set_u256}
use risc_v_rust.Uniswap.Pair.Abi.{Decoders}
use risc_v_rust.Uniswap.Pair.State.{
  minimum_liquidity, slot_token0, slot_token1, slot_total_supply, get_token0, get_token1,
  get_reserves, set_reserves, get_balance, set_balance, address_word,
}
use risc_v_rust.Uniswap.Pair.Calls.{
  require_unlocked, set_unlocked, unlock_and_revert_if, safe_transfer, safe_balance_of, now_secs,
  to_u128, return_u256, return_tuple_u256_u256,
}

module _ {E : Type 0} (abi : Decoders) (host : Host E) where
  open host use {hash_keccak_256, address}

  unfoldable pub initialize : Bytes → M E (Unit {0})
  initialize call_data = do
    require_unlocked
    decoded ← unwrap_or_revert (abi.initialize call_data)
    token0 ← gets (storage_get_u256 slot_token0)
    unlock_and_revert_if (not (token0 == 0))
    modify (storage_set_u256 slot_token0 (address_word decoded.0))
    modify (storage_set_u256 slot_token1 (address_word decoded.1))
    set_unlocked
    return_value []

  -- The first deposit: the root of the product, of which a minimum stays locked.
  unfoldable pub first_liquidity : ℕ → ℕ → ℕ → M E ℕ
  first_liquidity amount0 amount1 total_supply = do
    liq ← unwrap (sqrt_u256 (mul256 amount0 amount1))
    unlock_and_revert_if (leb liq minimum_liquidity)
    let rest = sub256 liq minimum_liquidity
    modify (storage_set_u256 slot_total_supply (add256 total_supply minimum_liquidity))
    modify (set_balance hash_keccak_256 (zeros 20) minimum_liquidity)
    pure rest

  -- A later deposit: the smaller of the two shares.
  unfoldable pub later_liquidity : ℕ → ℕ → ℕ → ℕ → ℕ → M E ℕ
  later_liquidity amount0 amount1 reserve0 reserve1 total_supply = do
    l0 ← checked_div (mul256 amount0 total_supply) reserve0
    l1 ← checked_div (mul256 amount1 total_supply) reserve1
    let liq = if ltb l0 l1 then l0 else l1
    unlock_and_revert_if (liq == 0)
    modify (storage_set_u256 slot_total_supply (add256 total_supply liq))
    pure liq

  unfoldable pub mint : Bytes → M E (Unit {0})
  mint call_data = do
    require_unlocked
    to ← unwrap_or_revert (abi.mint call_data)
    reserves ← gets get_reserves
    token0 ← gets get_token0
    token1 ← gets get_token1
    balance0 ← safe_balance_of host token0 address
    balance1 ← safe_balance_of host token1 address
    let amount0 = sub256 balance0 reserves.0
    let amount1 = sub256 balance1 reserves.1
    total_supply ← gets (storage_get_u256 slot_total_supply)
    liquidity ←
        if total_supply == 0
        then first_liquidity amount0 amount1 total_supply
        else later_liquidity amount0 amount1 reserves.0 reserves.1 total_supply
    held ← gets (get_balance hash_keccak_256 to)
    modify (set_balance hash_keccak_256 to (add256 held liquidity))
    r0 ← to_u128 balance0
    r1 ← to_u128 balance1
    ts ← now_secs host
    modify (set_reserves r0 r1 ts)
    set_unlocked
    return_u256 liquidity

  unfoldable pub burn : Bytes → M E (Unit {0})
  burn call_data = do
    require_unlocked
    to ← unwrap_or_revert (abi.burn call_data)
    liquidity ← gets (get_balance hash_keccak_256 address)
    unlock_and_revert_if (liquidity == 0)
    total_supply ← gets (storage_get_u256 slot_total_supply)
    token0 ← gets get_token0
    token1 ← gets get_token1
    balance0 ← safe_balance_of host token0 address
    balance1 ← safe_balance_of host token1 address
    amount0 ← checked_div (mul256 liquidity balance0) total_supply
    amount1 ← checked_div (mul256 liquidity balance1) total_supply
    unlock_and_revert_if (amount0 == 0 || amount1 == 0)
    modify (set_balance hash_keccak_256 address 0)
    modify (storage_set_u256 slot_total_supply (sub256 total_supply liquidity))
    safe_transfer host token0 to amount0
    safe_transfer host token1 to amount1
    new_bal0 ← safe_balance_of host token0 address
    new_bal1 ← safe_balance_of host token1 address
    r0 ← to_u128 new_bal0
    r1 ← to_u128 new_bal1
    ts ← now_secs host
    modify (set_reserves r0 r1 ts)
    set_unlocked
    return_tuple_u256_u256 amount0 amount1
