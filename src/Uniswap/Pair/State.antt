-- ===== src/Uniswap/Pair/State.antt =====
-- The pair's storage: its slots, and the functions that read and write them (lines 15 to 132).
pub mod Reserves
pub mod Balances
use risc_v_rust.Base.{ℕ, ◌-◌, ◌/◌, ◌^◌, bit_and, bit_or}
use risc_v_rust.Base.Bytes.{Bytes, slice, zeros, copy_from_slice, to_be_bytes, from_be_slice}
use risc_v_rust.Base.Word.{shl256}
use risc_v_rust.Uniswap.Host.{Storage, get_storage_or_zero, set_storage_or_clear}
use risc_v_rust.Uniswap.Slots.{storage_get_u256, storage_set_u256, mapping_key_1, mapping_key_2}

abbrev pub minimum_liquidity : ℕ
minimum_liquidity = 1000

abbrev pub slot_factory : ℕ
slot_factory = 0

abbrev pub slot_token0 : ℕ
slot_token0 = 1

abbrev pub slot_token1 : ℕ
slot_token1 = 2

abbrev pub slot_reserves : ℕ
slot_reserves = 3

abbrev pub slot_price0_cumulative : ℕ
slot_price0_cumulative = 4

abbrev pub slot_price1_cumulative : ℕ
slot_price1_cumulative = 5

abbrev pub slot_k_last : ℕ
slot_k_last = 6

abbrev pub slot_unlocked : ℕ
slot_unlocked = 7

abbrev pub slot_total_supply : ℕ
slot_total_supply = 8

abbrev pub slot_balance_of : ℕ
slot_balance_of = 9

abbrev pub slot_allowance : ℕ
slot_allowance = 10

-- The last twenty bytes of a slot.
unfoldable pub get_factory : Storage → Bytes
get_factory st = slice 12 32 (to_be_bytes 32 (storage_get_u256 slot_factory st))

unfoldable pub get_token0 : Storage → Bytes
get_token0 st = slice 12 32 (to_be_bytes 32 (storage_get_u256 slot_token0 st))

unfoldable pub get_token1 : Storage → Bytes
get_token1 st = slice 12 32 (to_be_bytes 32 (storage_get_u256 slot_token1 st))

-- The two reserves (`u128`) and the timestamp (`u32`) in one slot.
unfoldable pub get_reserves : Storage → ℕ × ℕ × ℕ
get_reserves st =
    let packed = storage_get_u256 slot_reserves st in
    let r0 = bit_and (packed / 2 ^ 144) (2 ^ 128 - 1) in
    let r1 = bit_and (packed / 2 ^ 32) (2 ^ 128 - 1) in
    let ts = bit_and packed (2 ^ 32 - 1) in (r0, r1, ts)

unfoldable pub set_reserves : ℕ → ℕ → ℕ → Storage → Storage
set_reserves r0 r1 ts =
    storage_set_u256 slot_reserves (bit_or (bit_or (shl256 r0 144) (shl256 r1 32)) ts)

module _ (hash : Bytes → Bytes) where
  unfoldable pub get_balance : Bytes → Storage → ℕ
  get_balance owner st =
      from_be_slice (get_storage_or_zero (mapping_key_1 hash slot_balance_of owner) st)

  unfoldable pub set_balance : Bytes → ℕ → Storage → Storage
  set_balance owner value =
      set_storage_or_clear (mapping_key_1 hash slot_balance_of owner) (to_be_bytes 32 value)

  unfoldable pub get_allowance : Bytes → Bytes → Storage → ℕ
  get_allowance owner spender st =
      from_be_slice (get_storage_or_zero (mapping_key_2 hash slot_allowance owner spender) st)

  unfoldable pub set_allowance : Bytes → Bytes → ℕ → Storage → Storage
  set_allowance owner spender value =
      set_storage_or_clear (mapping_key_2 hash slot_allowance owner spender) (to_be_bytes 32 value)

-- `U256::from_be_slice` of an address at the right end of 32 bytes.
abbrev pub address_word : Bytes → ℕ
address_word a = from_be_slice (copy_from_slice (zeros 32) 12 a)
