-- ===== src/Uniswap/Pair/Dispatch.antt =====
-- The entry point `call` of the pair: the selector chooses the function (lines 199 to 264 and 533).
pub mod Reaches
use risc_v_rust.Base.{ℕ, length, take, ltb, if◌then◌else◌}
use risc_v_rust.Base.Bytes.{Bytes, bytes_eq}
use risc_v_rust.Uniswap.Host.{M, Host, gets, revert, revert_if, unwrap_or_revert, ◌>>=◌, ◌>>◌}
use risc_v_rust.Uniswap.Slots.{storage_get_u256}
use risc_v_rust.Uniswap.Pair.Abi.{Selectors, Decoders}
use risc_v_rust.Uniswap.Pair.State.{
  minimum_liquidity, slot_price0_cumulative, slot_price1_cumulative, slot_k_last, slot_total_supply,
  get_factory, get_token0, get_token1, get_reserves, get_balance, get_allowance, address_word,
}
use risc_v_rust.Uniswap.Pair.Calls.{return_u256, return_tuple_u112_u112_u32}
use risc_v_rust.Uniswap.Pair.Liquidity.{initialize, mint, burn}
use risc_v_rust.Uniswap.Pair.Trade.{swap, skim, sync}
use risc_v_rust.Uniswap.Pair.Token.{approve, transfer, transfer_from}

module _ {E : Type 0} where
  -- The functions that only read a slot.
  abbrev pub return_slot : ℕ → M E (Unit {0})
  return_slot slot = do return_u256 (← gets (storage_get_u256 slot))

  abbrev pub return_reserves : M E (Unit {0})
  return_reserves = do r ← gets get_reserves; return_tuple_u112_u112_u32 r.0 r.1 r.2

module _ {E : Type 0} (sel : Selectors) (abi : Decoders) (host : Host E) where
  open host use {hash_keccak_256}

  abbrev pub return_balance : Bytes → M E (Unit {0})
  return_balance call_data = do
    owner ← unwrap_or_revert (abi.balance_of call_data)
    return_u256 (← gets (get_balance hash_keccak_256 owner))

  abbrev pub return_allowance : Bytes → M E (Unit {0})
  return_allowance call_data = do
    decoded ← unwrap_or_revert (abi.allowance call_data)
    return_u256 (← gets (get_allowance hash_keccak_256 decoded.0 decoded.1))

  -- The functions that change the state.
  unfoldable pub call_mutating : Bytes → Bytes → M E (Unit {0})
  call_mutating selector call_data =
      if bytes_eq selector sel.initialize
      then initialize abi host call_data
      else if bytes_eq selector sel.mint
      then mint abi host call_data
      else if bytes_eq selector sel.burn
      then burn abi host call_data
      else if bytes_eq selector sel.swap
      then swap abi host call_data
      else if bytes_eq selector sel.skim
      then skim abi host call_data
      else if bytes_eq selector sel.sync
      then sync abi host
      else if bytes_eq selector sel.approve
      then approve abi host call_data
      else if bytes_eq selector sel.transfer
      then transfer abi host call_data
      else if bytes_eq selector sel.transfer_from
      then transfer_from abi host call_data
      else revert

  unfoldable pub call_selected : Bytes → Bytes → M E (Unit {0})
  call_selected selector call_data =
      if bytes_eq selector sel.factory
      then (do return_u256 (address_word (← gets get_factory)))
      else if bytes_eq selector sel.token0
      then (do return_u256 (address_word (← gets get_token0)))
      else if bytes_eq selector sel.token1
      then (do return_u256 (address_word (← gets get_token1)))
      else if bytes_eq selector sel.get_reserves
      then return_reserves
      else if bytes_eq selector sel.total_supply
      then return_slot slot_total_supply
      else if bytes_eq selector sel.balance_of
      then return_balance call_data
      else if bytes_eq selector sel.allowance
      then return_allowance call_data
      else if bytes_eq selector sel.minimum_liquidity
      then return_u256 minimum_liquidity
      else if bytes_eq selector sel.price0_cumulative_last
      then return_slot slot_price0_cumulative
      else if bytes_eq selector sel.price1_cumulative_last
      then return_slot slot_price1_cumulative
      else if bytes_eq selector sel.k_last
      then return_slot slot_k_last
      else call_mutating selector call_data

  unfoldable pub call : Bytes → M E (Unit {0})
  call call_data = do
    revert_if (ltb (length call_data) 4)
    call_selected (take 4 call_data) call_data
