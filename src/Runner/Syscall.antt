-- ===== src/Runner/Syscall.antt =====
-- The system calls, their symbols, and the dispatch table (lines 15 to 131).
pub mod Dispatch
use risc_v_rust.Base.{
  ℕ, zero, suc, ◌+◌, Option, none, some, List, [], ◌∷◌, ◌++◌, length, get_elem?, if◌then◌else◌,
}
use risc_v_rust.Base.Bytes.{Bytes, bytes_eq, codes}

pub data SyscallId : Type 0 where
  call_data_size call_data_load call_data_copy seal_return consume_all_gas value_transferred :
      SyscallId
  set_immutable_data get_immutable_data get_storage_or_zero set_storage_or_clear : SyscallId
  hash_keccak_256 address caller balance block_number return_data_size ref_time_left : SyscallId
  unknown : SyscallId

unfoldable pub symbol_to_syscall_id : Bytes → SyscallId
symbol_to_syscall_id symbol =
    if bytes_eq symbol (codes "call_data_size")
    then call_data_size
    else if bytes_eq symbol (codes "call_data_load")
    then call_data_load
    else if bytes_eq symbol (codes "call_data_copy")
    then call_data_copy
    else if bytes_eq symbol (codes "seal_return")
    then seal_return
    else if bytes_eq symbol (codes "consume_all_gas")
    then consume_all_gas
    else if bytes_eq symbol (codes "value_transferred")
    then value_transferred
    else if bytes_eq symbol (codes "set_immutable_data")
    then set_immutable_data
    else if bytes_eq symbol (codes "get_immutable_data")
    then get_immutable_data
    else if bytes_eq symbol (codes "get_storage_or_zero")
    then get_storage_or_zero
    else if bytes_eq symbol (codes "set_storage_or_clear")
    then set_storage_or_clear
    else if bytes_eq symbol (codes "hash_keccak_256")
    then hash_keccak_256
    else if bytes_eq symbol (codes "address")
    then address
    else if bytes_eq symbol (codes "caller")
    then caller
    else if bytes_eq symbol (codes "balance")
    then balance
    else if bytes_eq symbol (codes "block_number")
    then block_number
    else if bytes_eq symbol (codes "return_data_size")
    then return_data_size
    else if bytes_eq symbol (codes "ref_time_left")
    then ref_time_left
    else unknown

-- The loop of `SyscallDispatchTable::from_module`, from an index on and with the table so far; the
-- imports of a module are a list of symbols.
unfoldable pub table_loop : ℕ → List Bytes → ℕ → List SyscallId → List SyscallId
table_loop zero imports idx table = table
table_loop (suc fuel) imports idx table = elim (get_elem? imports idx) [
  | none ↦ table
  | some symbol ↦ table_loop fuel imports (idx + 1) (table ++ symbol_to_syscall_id symbol ∷ [])
]

unfoldable pub from_module : List Bytes → List SyscallId
from_module imports = table_loop (suc (length imports)) imports 0 []

-- `SyscallDispatchTable::get`
unfoldable pub get : List SyscallId → ℕ → SyscallId
get table idx = elim (get_elem? table idx) [ none ↦ unknown | some id ↦ id ]
