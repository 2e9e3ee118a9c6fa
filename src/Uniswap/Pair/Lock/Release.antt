-- ===== src/Uniswap/Pair/Lock/Release.antt =====
-- A guarded function that returns leaves the pair unlocked.
use risc_v_rust.Base.{ℕ, ◌≡◌, arith}
use risc_v_rust.Base.Bytes.{Bytes}
use risc_v_rust.Uniswap.Host.{World, Host, returned, return_value, ◌>>=◌, ◌>>◌}
use risc_v_rust.Uniswap.Host.Goes.{GoesOn, Returns, Returns-bind, Returns-returned}
use risc_v_rust.Uniswap.Slots.Laws.{storage_get_u256-storage_set_u256}
use risc_v_rust.Uniswap.Pair.Abi.{Decoders}
use risc_v_rust.Uniswap.Pair.Calls.{set_unlocked}
use risc_v_rust.Uniswap.Pair.Calls.Goes.{pair_goes_on}
use risc_v_rust.Uniswap.Pair.Liquidity.{initialize, mint, burn, first_liquidity, later_liquidity}
use risc_v_rust.Uniswap.Pair.Trade.{swap, skim, sync}
use risc_v_rust.Uniswap.Pair.Lock.{Guarded, guarded, lock}

abbrev pub IsFree : {E : Type 0} → World E → Type 0
IsFree w = lock w ≡ 1

module _ {E : Type 0} where
  Returns-last : (d : Bytes) → Returns (IsFree {E = E}) (set_unlocked >> return_value d)
  unfolding set_unlocked ◌>>=◌
  Returns-last d = record {
    at = λ w. storage_get_u256-storage_set_u256 7 7 1 w.storage (omega arith) (omega arith);
  }

  module _ (abi : Decoders) (host : Host E) where
    GoesOn-first_liquidity : (a0 a1 t : ℕ) → GoesOn (first_liquidity abi host a0 a1 t)
    unfolding first_liquidity
    GoesOn-first_liquidity a0 a1 t = search pair_goes_on depth 20

    GoesOn-later_liquidity : (a0 a1 r0 r1 t : ℕ) → GoesOn (later_liquidity abi host a0 a1 r0 r1 t)
    unfolding later_liquidity
    GoesOn-later_liquidity a0 a1 r0 r1 t = search pair_goes_on depth 20

  ruleset release_rules =
      (Returns-last, Returns-bind, pair_goes_on, GoesOn-first_liquidity, GoesOn-later_liquidity)

  module _ (abi : Decoders) (host : Host E) (call_data : Bytes) where
    initialize-Returns : Returns IsFree (initialize abi host call_data)
    unfolding initialize
    initialize-Returns = search release_rules depth 80

    mint-Returns : Returns IsFree (mint abi host call_data)
    unfolding mint
    mint-Returns = search release_rules depth 80

    burn-Returns : Returns IsFree (burn abi host call_data)
    unfolding burn
    burn-Returns = search release_rules depth 80

    swap-Returns : Returns IsFree (swap abi host call_data)
    unfolding swap
    swap-Returns = search release_rules depth 80

    skim-Returns : Returns IsFree (skim abi host call_data)
    unfolding skim
    skim-Returns = search release_rules depth 80

    sync-Returns : Returns IsFree (sync abi host)
    unfolding sync
    sync-Returns = search release_rules depth 80

    pub guarded-Returns : (f : Guarded) → Returns IsFree (guarded abi host f call_data)
    unfolding guarded
    guarded-Returns Guarded.initialize = initialize-Returns
    guarded-Returns Guarded.mint = mint-Returns
    guarded-Returns Guarded.burn = burn-Returns
    guarded-Returns Guarded.swap = swap-Returns
    guarded-Returns Guarded.skim = skim-Returns
    guarded-Returns Guarded.sync = sync-Returns

    -- A guarded function, from whatever world and with whatever tokens, leaves the pair unlocked when
    -- it returns.
    pub guarded-releases :
        (f : Guarded) (w : World E) {d : Bytes}
        → (guarded abi host f call_data w).0 ≡ returned d
        → lock (guarded abi host f call_data w).1 ≡ 1
    guarded-releases f w e = Returns-returned IsFree _ w (guarded-Returns f) e
