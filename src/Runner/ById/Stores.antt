-- ===== src/Runner/ById/Stores.antt =====
-- The system call `set_storage_or_clear` against the storage that contracts see.
use risc_v_rust.Base.{
  ◌%◌, ◌^◌, ◌≡◌, ◌≢◌, ◌∙◌, refl, true, false, Option-cases, inl, inr, arith, length, if◌then◌else◌,
  ap,
}
use risc_v_rust.Base.Bytes.{Bytes, bytes_eq, bytes_eq_ne, bytes_eq_refl, zeros}
use risc_v_rust.Uniswap.Host.{set_storage_or_clear}
use risc_v_rust.Runner.Syscall.{SyscallId}
use risc_v_rust.Runner.Table.{Table, lookup, get_or_zero, contains_key, all_zero}
use risc_v_rust.Runner.Table.View.{view, view-set_or_clear, IsSparse, lookup-IsSparse}
use risc_v_rust.Runner.Machine.{Machine, return_value, u32_max}
use risc_v_rust.Runner.ById.{dispatch, handle_syscall_by_id}

zeros-all_zero : all_zero (zeros 32) ≡ true
unfolding all_zero
zeros-all_zero = refl

nonzero : (v : Bytes) → all_zero v ≡ false → v ≢ zeros 32
nonzero v h e = let same : all_zero v ≡ true = ap all_zero e ∙ zeros-all_zero in cc

-- In a sparse table a key is there exactly if its word is not zero.
contains_key-get_or_zero :
    (k : Bytes) (t : Table)
    → IsSparse t
    → (if contains_key k t then 32 else u32_max)
      ≡ (if bytes_eq (get_or_zero k t) (zeros 32) then u32_max else 32)
unfolding contains_key get_or_zero
contains_key-get_or_zero k t h = elim (Option-cases (lookup k t)) [
  | inl e ↦ ground (arith, bytes_eq_refl (zeros 32))
  | inr (v, e) ↦ ground (arith, bytes_eq_ne v (zeros 32) (nonzero v (lookup-IsSparse k v t h e)))
]

module _ {I : Type 0} (m : Machine I) (calldata : Bytes) (table : Table) (i : I) where
  -- The key and the value that the contract hands over.
  abbrev key : Bytes
  key = m.read_memory_into i (m.reg_a1 i % 2 ^ 32) (zeros 32)

  abbrev value : Bytes
  value = m.read_memory_into i (m.reg_a2 i % 2 ^ 32) (zeros 32)

  -- On a sparse table, where reading memory fills the buffer of 32 bytes: the reply is 2 ^ 32 - 1 if the
  -- word at the key was zero, and 32 if not; afterwards the contract sees the value at the key and every
  -- other word as before; and the machine is as before.
  pub handle_syscall_by_id-stores :
      IsSparse table
      → length value ≡ 32
      → (j : Bytes)
      → let (r, table', i') =
          handle_syscall_by_id m SyscallId.set_storage_or_clear calldata table i in
        (r ≡ return_value (if bytes_eq (view table key) (zeros 32) then u32_max else 32))
        × (view table' j ≡ set_storage_or_clear key value (view table) j)
        × (i' ≡ i)
  unfolding handle_syscall_by_id dispatch
  handle_syscall_by_id-stores sparse sized j = (
    ap return_value (contains_key-get_or_zero key table sparse),
    view-set_or_clear key j value table sized,
    refl,
  )
