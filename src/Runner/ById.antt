-- ===== src/Runner/ById.antt =====
-- `handle_syscall_by_id` (lines 279 to 438).
pub mod Stores
use Prim.Native.Nat.{min}
use risc_v_rust.Base.{
  ℕ, ◌+◌, ◌-◌, ◌%◌, ◌^◌, [], ◌∷◌, length, replicate, reverse, ltb, leb, if◌then◌else◌,
}
use risc_v_rust.Base.Bytes.{Bytes, zeros, slice, copy_from_slice}
use risc_v_rust.Runner.Table.{Table, get_or_zero, contains_key, set_or_clear}
use risc_v_rust.Runner.Machine.{
  Machine, SyscallResult, continue, return_value, terminate, saturating_add, u32_max,
}
use risc_v_rust.Runner.Syscall.{SyscallId}

-- The arguments are what the machine's registers A0, A1 and A2 hold, the table is the persistent
-- storage, and the last is the machine.
unfoldable pub dispatch :
    {I : Type 0} (m : Machine I)
    → SyscallId
    → ℕ
    → ℕ
    → ℕ
    → Bytes
    → Table
    → I
    → SyscallResult × Table × I
dispatch m SyscallId.call_data_size a0 a1 a2 calldata table i =
    (return_value (length calldata), table, i)
dispatch m SyscallId.call_data_load a0 a1 a2 calldata table i =
    (let out_ptr = a0 % 2 ^ 32 in
      let start = a1 % 2 ^ 32 in
      let finish = min (saturating_add start 32) (length calldata) in
      let loaded = reverse (copy_from_slice (zeros 32) 0 (slice start finish calldata)) in
      let word = if ltb start (length calldata) then loaded else zeros 32 in
      (continue, table, m.write_memory out_ptr word i))
dispatch m SyscallId.call_data_copy a0 a1 a2 calldata table i =
    (let out_ptr = a0 % 2 ^ 32 in
      let out_len = a1 % 2 ^ 32 in
      let start = a2 % 2 ^ 32 in
      let finish = min (saturating_add start out_len) (length calldata) in
      let written = (finish - start) % 2 ^ 32 in
      let copied = m.write_memory out_ptr (slice start finish calldata) i in
      let padded =
        if ltb written out_len
        then m.zero_memory ((out_ptr + written) % 2 ^ 32) (out_len - written) copied
        else copied in
      (
        continue,
        table,
        if leb (length calldata) start then m.zero_memory out_ptr out_len i else padded,
      ))
dispatch m SyscallId.seal_return a0 a1 a2 calldata table i =
    (let flags = a0 % 2 ^ 32 in
      let data_ptr = a1 % 2 ^ 32 in
      let data_len = a2 % 2 ^ 32 in
      (terminate flags (m.read_memory_into i data_ptr (zeros data_len)), table, i))
dispatch m SyscallId.consume_all_gas a0 a1 a2 calldata table i = (terminate 1 [], table, i)
dispatch m SyscallId.value_transferred a0 a1 a2 calldata table i =
    (continue, table, m.write_memory (a0 % 2 ^ 32) (zeros 32) i)
dispatch m SyscallId.set_immutable_data a0 a1 a2 calldata table i = (continue, table, i)
dispatch m SyscallId.get_immutable_data a0 a1 a2 calldata table i =
    (continue, table, m.write_memory (a1 % 2 ^ 32) (zeros 4) i)
dispatch m SyscallId.get_storage_or_zero a0 a1 a2 calldata table i =
    (let key = m.read_memory_into i (a1 % 2 ^ 32) (zeros 32) in
      (continue, table, m.write_memory (a2 % 2 ^ 32) (get_or_zero key table) i))
dispatch m SyscallId.set_storage_or_clear a0 a1 a2 calldata table i =
    (let key = m.read_memory_into i (a1 % 2 ^ 32) (zeros 32) in
      let value = m.read_memory_into i (a2 % 2 ^ 32) (zeros 32) in
      let old_len = if contains_key key table then 32 else u32_max in
      (return_value old_len, set_or_clear key value table, i))
dispatch m SyscallId.hash_keccak_256 a0 a1 a2 calldata table i =
    (let input = m.read_memory_into i (a0 % 2 ^ 32) (zeros (a1 % 2 ^ 32)) in
      (continue, table, m.write_memory (a2 % 2 ^ 32) (m.keccak256 input) i))
dispatch m SyscallId.address a0 a1 a2 calldata table i =
    (continue, table, m.write_memory (a0 % 2 ^ 32) (replicate 20 0x42) i)
dispatch m SyscallId.caller a0 a1 a2 calldata table i =
    (continue, table, m.write_memory (a0 % 2 ^ 32) (replicate 20 0x01) i)
dispatch m SyscallId.balance a0 a1 a2 calldata table i =
    (continue, table, m.write_memory (a0 % 2 ^ 32) (zeros 32) i)
dispatch m SyscallId.block_number a0 a1 a2 calldata table i =
    (continue, table, m.write_memory (a0 % 2 ^ 32) (1 ∷ zeros 31) i)
dispatch m SyscallId.return_data_size a0 a1 a2 calldata table i = (return_value 0, table, i)
dispatch m SyscallId.ref_time_left a0 a1 a2 calldata table i = (return_value (m.gas i), table, i)
dispatch m SyscallId.unknown a0 a1 a2 calldata table i = (continue, table, i)

unfoldable pub handle_syscall_by_id :
    {I : Type 0} (m : Machine I) → SyscallId → Bytes → Table → I → SyscallResult × Table × I
handle_syscall_by_id m id calldata table i =
    dispatch m id (m.reg_a0 i) (m.reg_a1 i) (m.reg_a2 i) calldata table i
