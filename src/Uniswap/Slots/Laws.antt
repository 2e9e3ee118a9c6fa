-- ===== src/Uniswap/Slots/Laws.antt =====
-- What a write at one key does to a read at another.
use risc_v_rust.Base.{ℕ, ◌%◌, ◌^◌, ◌<◌, ◌≡◌, ◌≢◌, inl, inr, arith, ◌==◌, if◌then◌else◌, Bool-cases}
use risc_v_rust.Base.Bytes.{
  Bytes, bytes_eq, bytes_eq_iff, bytes_eq_ne, to_be_bytes, from_be_slice, from_be-to_be,
}
use risc_v_rust.Uniswap.Host.{Storage, set_storage_or_clear}
use risc_v_rust.Uniswap.Slots.{slot_key, storage_get_u256, storage_set_u256}
use risc_v_rust.Uniswap.Slots.Keys.{slot_key-injective}

-- A write of a word, and the read of a word, at any two keys.
pub read-write :
    (k j : Bytes) (v : ℕ) (st : Storage)
    → from_be_slice (set_storage_or_clear k (to_be_bytes 32 v) st j)
      ≡ (if bytes_eq k j then v % 2 ^ 256 else from_be_slice (st j))
unfolding set_storage_or_clear
read-write k j v st = elim (Bool-cases (bytes_eq k j)) [
  | inl same ↦ rw same (from_be-to_be v)
  | inr other ↦ rw other
]

pub read-write_ne : (k j v : Bytes) (st : Storage) → k ≢ j → set_storage_or_clear k v st j ≡ st j
unfolding set_storage_or_clear
read-write_ne k j v st ne = rw (bytes_eq_ne k j ne)

-- For slot numbers below 2 ^ 32: a slot keeps the word that is written, cut to 256 bits, and a write to
-- another slot leaves it alone.
pub storage_get_u256-storage_set_u256 :
    (i j v : ℕ) (st : Storage)
    → i < 2 ^ 32
    → j < 2 ^ 32
    → storage_get_u256 i (storage_set_u256 j v st)
      ≡ (if j == i then v % 2 ^ 256 else storage_get_u256 i st)
unfolding storage_get_u256 storage_set_u256
storage_get_u256-storage_set_u256 i j v st hi hj =
    rw (read-write (slot_key j) (slot_key i) v st)
      (ground (arith, bytes_eq_iff (slot_key j) (slot_key i), slot_key-injective j i hj hi))
