-- ===== src/Uniswap/Pair/Abi.antt =====
-- What `sol!("IUniswapV2Pair.sol")` generates: the selectors and the decoders of the calls. Addresses
-- come as 20 bytes, `uint256` values as numbers below 2 ^ 256.
use risc_v_rust.Base.{ℕ, Option}
use risc_v_rust.Base.Bytes.{Bytes}

pub record Selectors : Type 0 where
  pub factory : Bytes
  pub token0 : Bytes
  pub token1 : Bytes
  pub get_reserves : Bytes
  pub total_supply : Bytes
  pub balance_of : Bytes
  pub allowance : Bytes
  pub minimum_liquidity : Bytes
  pub price0_cumulative_last : Bytes
  pub price1_cumulative_last : Bytes
  pub k_last : Bytes
  pub initialize : Bytes
  pub mint : Bytes
  pub burn : Bytes
  pub swap : Bytes
  pub skim : Bytes
  pub sync : Bytes
  pub approve : Bytes
  pub transfer : Bytes
  pub transfer_from : Bytes

-- `abi_decode` of each call that has arguments.
pub record Decoders : Type 0 where
  pub balance_of : Bytes → Option Bytes
  pub allowance : Bytes → Option (Bytes × Bytes)
  pub initialize : Bytes → Option (Bytes × Bytes)
  pub mint : Bytes → Option Bytes
  pub burn : Bytes → Option Bytes
  pub swap : Bytes → Option (ℕ × ℕ × Bytes × Bytes)
  pub skim : Bytes → Option Bytes
  pub approve : Bytes → Option (Bytes × ℕ)
  pub transfer : Bytes → Option (Bytes × ℕ)
  pub transfer_from : Bytes → Option (Bytes × Bytes × ℕ)
