-- ===== src/Uniswap/Slots.antt =====
-- uniswap-rust/src/lib.rs: storage slots and the keys of mappings.
pub mod Keys
pub mod Laws
use risc_v_rust.Base.{ℕ, ◌+◌}
use risc_v_rust.Base.Bytes.{Bytes, zeros, copy_from_slice, to_be_bytes, from_be_slice}
use risc_v_rust.Uniswap.Host.{Storage, get_storage_or_zero, set_storage_or_clear}

-- The key of a numbered slot.
unfoldable pub slot_key : ℕ → Bytes
slot_key slot = copy_from_slice (zeros 32) 28 (to_be_bytes 4 slot)

unfoldable pub storage_get_u256 : ℕ → Storage → ℕ
storage_get_u256 slot st = from_be_slice (get_storage_or_zero (slot_key slot) st)

unfoldable pub storage_set_u256 : ℕ → ℕ → Storage → Storage
storage_set_u256 slot value = set_storage_or_clear (slot_key slot) (to_be_bytes 32 value)

module _ (hash : Bytes → Bytes) where
  unfoldable pub mapping_key_1 : ℕ → Bytes → Bytes
  mapping_key_1 base_slot key =
      hash (copy_from_slice (copy_from_slice (zeros 64) 12 key) 44 (to_be_bytes 4 base_slot))

  unfoldable pub mapping_key_2 : ℕ → Bytes → Bytes → Bytes
  mapping_key_2 base_slot key1 key2 =
      let inner =
        copy_from_slice (copy_from_slice (zeros 64) 12 key2) 44 (to_be_bytes 4 (base_slot + 1)) in
      hash (copy_from_slice (copy_from_slice (zeros 64) 12 key1) 32 (hash inner))
