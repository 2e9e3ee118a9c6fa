-- ===== src/Uniswap/Pair/Lock.antt =====
-- The lock: a locked pair refuses, and a call that returns leaves the pair unlocked.
pub mod Release
use risc_v_rust.Base.{ℕ, ◌≡◌, ◌≢◌, arith}
use risc_v_rust.Base.Bytes.{Bytes}
use risc_v_rust.Uniswap.Host.{reverted, World, M, Host, ◌>>=◌}
use risc_v_rust.Uniswap.Host.Ensures.{bind-reverted}
use risc_v_rust.Uniswap.Slots.{storage_get_u256}
use risc_v_rust.Uniswap.Pair.Abi.{Decoders}
use risc_v_rust.Uniswap.Pair.State.{slot_unlocked}
use risc_v_rust.Uniswap.Pair.Calls.{require_unlocked}
use risc_v_rust.Uniswap.Pair.Liquidity
use risc_v_rust.Uniswap.Pair.Trade

-- The functions that begin by `require_unlocked()`.
pub data Guarded : Type 0 where
  initialize mint burn swap skim sync : Guarded

unfoldable pub guarded : {E : Type 0} → Decoders → Host E → Guarded → Bytes → M E (Unit {0})
guarded abi host Guarded.initialize call_data = Liquidity.initialize abi host call_data
guarded abi host Guarded.mint call_data = Liquidity.mint abi host call_data
guarded abi host Guarded.burn call_data = Liquidity.burn abi host call_data
guarded abi host Guarded.swap call_data = Trade.swap abi host call_data
guarded abi host Guarded.skim call_data = Trade.skim abi host call_data
guarded abi host Guarded.sync call_data = Trade.sync abi host

abbrev pub lock : {E : Type 0} → World E → ℕ
lock w = storage_get_u256 slot_unlocked w.storage

module _ {E : Type 0} (w : World E) (locked : lock w ≢ 1) where
  require_unlocked-locked : require_unlocked w ≡ (reverted, w)
  unfolding require_unlocked ◌>>=◌
  require_unlocked-locked = ground arith

  -- While the lock is taken, each of the six guarded functions reverts and changes nothing, whatever
  -- its arguments.
  pub locked-reverts :
      (abi : Decoders) (host : Host E) (f : Guarded) (call_data : Bytes)
      → guarded abi host f call_data w ≡ (reverted, w)
  unfolding guarded Liquidity.initialize Liquidity.mint Liquidity.burn Trade.swap Trade.skim
      Trade.sync
  locked-reverts abi host Guarded.initialize call_data = bind-reverted _ _ w require_unlocked-locked
  locked-reverts abi host Guarded.mint call_data = bind-reverted _ _ w require_unlocked-locked
  locked-reverts abi host Guarded.burn call_data = bind-reverted _ _ w require_unlocked-locked
  locked-reverts abi host Guarded.swap call_data = bind-reverted _ _ w require_unlocked-locked
  locked-reverts abi host Guarded.skim call_data = bind-reverted _ _ w require_unlocked-locked
  locked-reverts abi host Guarded.sync call_data = bind-reverted _ _ w require_unlocked-locked
