-- ===== src/Runner/Legacy/Agrees.antt =====
-- The two handlers agree.
use risc_v_rust.Base.{◌≡◌, refl, Bool, true, false, if◌then◌else◌}
use risc_v_rust.Base.Bytes.{Bytes, bytes_eq, codes}
use risc_v_rust.Runner.Table.{Table}
use risc_v_rust.Runner.Syscall.{SyscallId, symbol_to_syscall_id}
use risc_v_rust.Runner.Machine.{Machine, SyscallResult}
use risc_v_rust.Runner.ById.{dispatch, handle_syscall_by_id}
use risc_v_rust.Runner.Legacy.{handle_syscall}

module _ {I : Type 0} (m : Machine I) (calldata : Bytes) (table : Table) (i : I) where
  abbrev by_id : SyscallId → SyscallResult × Table × I
  by_id id = handle_syscall_by_id m id calldata table i

  chain :
      (test : Bool) (id rest : SyscallId) {x y : SyscallResult × Table × I}
      → x ≡ by_id id
      → y ≡ by_id rest
      → (if test then x else y) ≡ by_id (if test then id else rest)
  chain true id rest e f = e
  chain false id rest e f = f

  -- The older handler by symbol does what the handler by identifier does for the symbol's identifier,
  -- for every symbol, known or not.
  pub handle_syscall-by_id :
      (symbol : Bytes)
      → handle_syscall m symbol calldata table i
        ≡ handle_syscall_by_id m (symbol_to_syscall_id symbol) calldata table i
  unfolding handle_syscall handle_syscall_by_id symbol_to_syscall_id dispatch
  handle_syscall-by_id symbol =
      chain (bytes_eq symbol (codes "call_data_size")) SyscallId.call_data_size _ refl (
        chain (bytes_eq symbol (codes "call_data_load")) SyscallId.call_data_load _ refl (
          chain (bytes_eq symbol (codes "call_data_copy")) SyscallId.call_data_copy _ refl (
            chain (bytes_eq symbol (codes "seal_return")) SyscallId.seal_return _ refl (
              chain (bytes_eq symbol (codes "consume_all_gas")) SyscallId.consume_all_gas _ refl (
                chain (bytes_eq symbol (codes "value_transferred")) SyscallId.value_transferred _
                  refl
                  (chain (bytes_eq symbol (codes "set_immutable_data")) SyscallId.set_immutable_data
                    _ refl
                    (chain (bytes_eq symbol (codes "get_immutable_data"))
                      SyscallId.get_immutable_data _ refl
                      (chain (bytes_eq symbol (codes "get_storage_or_zero"))
                        SyscallId.get_storage_or_zero _ refl
                        (chain (bytes_eq symbol (codes "set_storage_or_clear"))
                          SyscallId.set_storage_or_clear _ refl
                          (chain (bytes_eq symbol (codes "hash_keccak_256"))
                            SyscallId.hash_keccak_256 _ refl
                            (chain (bytes_eq symbol (codes "address")) SyscallId.address _ refl (
                              chain (bytes_eq symbol (codes "caller")) SyscallId.caller _ refl (
                                chain (bytes_eq symbol (codes "balance")) SyscallId.balance _ refl (
                                  chain (bytes_eq symbol (codes "block_number"))
                                    SyscallId.block_number _ refl
                                    (chain (bytes_eq symbol (codes "return_data_size"))
                                      SyscallId.return_data_size _ refl
                                      (chain (bytes_eq symbol (codes "ref_time_left"))
                                        SyscallId.ref_time_left _ refl (refl)))))))))))))))))
