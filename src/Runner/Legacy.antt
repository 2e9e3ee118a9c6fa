-- ===== src/Runner/Legacy.antt =====
-- `handle_syscall`, the older handler by symbol (lines 440 to 635).
pub mod Agrees
use Prim.Native.Nat.{min}
use risc_v_rust.Base.{
  ℕ, ◌+◌, ◌-◌, ◌%◌, ◌^◌, [], ◌∷◌, length, replicate, reverse, ltb, leb, if◌then◌else◌,
}
use risc_v_rust.Base.Bytes.{Bytes, bytes_eq, codes, zeros, slice, copy_from_slice}
use risc_v_rust.Runner.Table.{Table, get_or_zero, contains_key, set_or_clear}
use risc_v_rust.Runner.Machine.{
  Machine, SyscallResult, continue, return_value, terminate, saturating_add, u32_max,
}

unfoldable pub handle_syscall :
    {I : Type 0} (m : Machine I) → Bytes → Bytes → Table → I → SyscallResult × Table × I
handle_syscall m symbol calldata table i =
    let a0 = m.reg_a0 i in
    let a1 = m.reg_a1 i in
    let a2 = m.reg_a2 i in
    if bytes_eq symbol (codes "call_data_size")
    then (return_value (length calldata), table, i)
    else if bytes_eq symbol (codes "call_data_load")
    then (let out_ptr = a0 % 2 ^ 32 in
        let start = a1 % 2 ^ 32 in
        let finish = min (saturating_add start 32) (length calldata) in
        let loaded = reverse (copy_from_slice (zeros 32) 0 (slice start finish calldata)) in
        let word = if ltb start (length calldata) then loaded else zeros 32 in
        (continue, table, m.write_memory out_ptr word i))
    else if bytes_eq symbol (codes "call_data_copy")
    then (let out_ptr = a0 % 2 ^ 32 in
        let out_len = a1 % 2 ^ 32 in
        let start = a2 % 2 ^ 32 in
        let finish = min (saturating_add start out_len) (length calldata) in
        let written = (finish - start) % 2 ^ 32 in
        let copied = m.write_memory out_ptr (slice start finish calldata) i in
        let padded =
          if ltb written out_len
          then m.zero_memory ((out_ptr + written) % 2 ^ 32) (out_len - written) copied
          else copied in
        (
          continue,
          table,
          if leb (length calldata) start then m.zero_memory out_ptr out_len i else padded,
        ))
    else if bytes_eq symbol (codes "seal_return")
    then (let flags = a0 % 2 ^ 32 in
        let data_ptr = a1 % 2 ^ 32 in
        let data_len = a2 % 2 ^ 32 in
        (terminate flags (m.read_memory_into i data_ptr (zeros data_len)), table, i))
    else if bytes_eq symbol (codes "consume_all_gas")
    then (terminate 1 [], table, i)
    else if bytes_eq symbol (codes "value_transferred")
    then (continue, table, m.write_memory (a0 % 2 ^ 32) (zeros 32) i)
    else if bytes_eq symbol (codes "set_immutable_data")
    then (continue, table, i)
    else if bytes_eq symbol (codes "get_immutable_data")
    then (continue, table, m.write_memory (a1 % 2 ^ 32) (zeros 4) i)
    else if bytes_eq symbol (codes "get_storage_or_zero")
    then (let key = m.read_memory_into i (a1 % 2 ^ 32) (zeros 32) in
        (continue, table, m.write_memory (a2 % 2 ^ 32) (get_or_zero key table) i))
    else if bytes_eq symbol (codes "set_storage_or_clear")
    then (let key = m.read_memory_into i (a1 % 2 ^ 32) (zeros 32) in
        let value = m.read_memory_into i (a2 % 2 ^ 32) (zeros 32) in
        let old_len = if contains_key key table then 32 else u32_max in
        (return_value old_len, set_or_clear key value table, i))
    else if bytes_eq symbol (codes "hash_keccak_256")
    then (let input = m.read_memory_into i (a0 % 2 ^ 32) (zeros (a1 % 2 ^ 32)) in
        (continue, table, m.write_memory (a2 % 2 ^ 32) (m.keccak256 input) i))
    else if bytes_eq symbol (codes "address")
    then (continue, table, m.write_memory (a0 % 2 ^ 32) (replicate 20 0x42) i)
    else if bytes_eq symbol (codes "caller")
    then (continue, table, m.write_memory (a0 % 2 ^ 32) (replicate 20 0x01) i)
    else if bytes_eq symbol (codes "balance")
    then (continue, table, m.write_memory (a0 % 2 ^ 32) (zeros 32) i)
    else if bytes_eq symbol (codes "block_number")
    then (continue, table, m.write_memory (a0 % 2 ^ 32) (1 ∷ zeros 31) i)
    else if bytes_eq symbol (codes "return_data_size")
    then (return_value 0, table, i)
    else if bytes_eq symbol (codes "ref_time_left")
    then (return_value (m.gas i), table, i)
    else (continue, table, i)
