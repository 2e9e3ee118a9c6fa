-- ===== src/Uniswap/Pair/Calls.antt =====
-- The steps that the pair's entry points share: returning words, calls of the two tokens, the lock,
-- the clock, and the conversions that panic (lines 46 to 72 and 134 to 197).
pub mod Goes
pub mod Keeps
pub mod Ensures
use risc_v_rust.Base.{
  ℕ, ◌^◌, Bool, true, false, Option, none, some, [], not, take, ltb, ◌==◌, if◌then◌else◌,
}
use risc_v_rust.Base.Bytes.{Bytes, zeros, copy_from_slice, to_be_bytes, from_be_slice, codes}
use risc_v_rust.Uniswap.Host.{
  next, trapped, M, Host, pure, gets, modify, revert, revert_if, return_value, external, ◌>>=◌,
  ◌>>◌, unwrap_or_revert,
}
use risc_v_rust.Uniswap.Slots.{storage_get_u256, storage_set_u256}
use risc_v_rust.Uniswap.Pair.State.{slot_factory, slot_unlocked, address_word}

abbrev pub is_err : Option Bytes → Bool
is_err none = true
is_err (some _) = false

module _ {E : Type 0} where
  abbrev pub return_u256 : ℕ → M E (Unit {0})
  return_u256 v = return_value (to_be_bytes 32 v)

  abbrev pub return_bool : Bool → M E (Unit {0})
  return_bool v = return_u256 (if v then 1 else 0)

  abbrev pub return_tuple_u112_u112_u32 : ℕ → ℕ → ℕ → M E (Unit {0})
  return_tuple_u112_u112_u32 r0 r1 ts = return_value (
      copy_from_slice
        (copy_from_slice (copy_from_slice (zeros 96) 0 (to_be_bytes 32 r0)) 32 (to_be_bytes 32 r1))
        64 (to_be_bytes 32 ts))

  abbrev pub return_tuple_u256_u256 : ℕ → ℕ → M E (Unit {0})
  return_tuple_u256_u256 a0 a1 =
      return_value
        (copy_from_slice (copy_from_slice (zeros 64) 0 (to_be_bytes 32 a0)) 32 (to_be_bytes 32 a1))

  -- `x.to::<u128>()` and `x.to::<u32>()` panic on a value that does not fit.
  abbrev pub to_u128 : ℕ → M E ℕ
  to_u128 x w = (if ltb x (2 ^ 128) then next x else trapped, w)

  abbrev pub to_u32 : ℕ → M E ℕ
  to_u32 x w = (if ltb x (2 ^ 32) then next x else trapped, w)

  unfoldable pub require_unlocked : M E (Unit {0})
  require_unlocked = do
    unlocked ← gets (storage_get_u256 slot_unlocked)
    revert_if (not (unlocked == 1))
    modify (storage_set_u256 slot_unlocked 0)

  unfoldable pub set_unlocked : M E (Unit {0})
  set_unlocked = modify (storage_set_u256 slot_unlocked 1)

  -- `if test { set_unlocked(); revert(); }`
  unfoldable pub unlock_and_revert_if : Bool → M E (Unit {0})
  unlock_and_revert_if test = if test then (set_unlocked >> revert) else pure tt

  module _ (host : Host E) where
    -- The input of the token's `transfer(address,uint256)`.
    abbrev pub transfer_input : Bytes → ℕ → Bytes
    transfer_input to value =
        let selector = take 4 (host.hash_keccak_256 (codes "transfer(address,uint256)")) in
        copy_from_slice (copy_from_slice (copy_from_slice (zeros 68) 0 selector) 16 to) 36
          (to_be_bytes 32 value)

    unfoldable pub safe_transfer : Bytes → Bytes → ℕ → M E (Unit {0})
    safe_transfer token to value = do
      res ← external (host.call_evm token (transfer_input to value) [])
      revert_if (is_err res)

    unfoldable pub safe_balance_of : Bytes → Bytes → M E ℕ
    safe_balance_of token account = do
      let selector = take 4 (host.hash_keccak_256 (codes "balanceOf(address)"))
      let call_data = copy_from_slice (copy_from_slice (zeros 36) 0 selector) 16 account
      res ← external (host.call_evm token call_data (zeros 32))
      output ← unwrap_or_revert res
      pure (from_be_slice output)

    unfoldable pub now_secs : M E ℕ
    now_secs w = to_u32 (from_be_slice (host.now w.rest)) w

    -- The constructor: the creator is the factory.
    unfoldable pub deploy : M E (Unit {0})
    deploy = do
      modify (storage_set_u256 slot_factory (address_word host.caller))
      modify (storage_set_u256 slot_unlocked 1)
