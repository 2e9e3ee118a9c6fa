-- ===== src/Runner/Exec.antt =====
-- Running a call (`reset_storage`, `call_with_data` and `call_with_dispatch_table`, lines 168 to 272).
pub mod Halts
use risc_v_rust.Base.{
  ℕ, zero, suc, ◌+◌, ◌-◌, ◌%◌, ◌^◌, ◌==◌, Bool, true, false, Option, none, some, List, [], ◌∷◌,
  length, if◌then◌else◌,
}
use risc_v_rust.Base.Bytes.{Bytes, bytes_eq, codes}
use risc_v_rust.Runner.Table.{Table}
use risc_v_rust.Runner.Syscall.{SyscallId, from_module, get}
use risc_v_rust.Runner.Machine.{
  InterruptKind, Machine, SyscallResult, ExecOutcome, continue, return_value, terminate,
}
use risc_v_rust.Runner.ById.{handle_syscall_by_id}

-- A loaded module: its exports with their program counters, its imports, and what `instantiate` gives.
pub record Module (I : Type 0) : Type 0 where
  pub exports : List (Bytes × ℕ)
  pub imports : List Bytes
  pub instantiate : Option I

-- The `anyhow` errors of a call.
pub data RunError : Type 0 where
  no_call_export not_instantiated execution_error trapped out_of_gas : RunError
  reverted : ℕ → ℕ → RunError

-- A call's result: the gas used with the output, or an error.
pub data CallResult : Type 0 where
  ok : ℕ → Bytes → CallResult
  err : RunError → CallResult

abbrev pub gas_limit : ℕ
gas_limit = 300000000

-- What one pass of the loop does: it goes on, or breaks with an outcome, or returns an `Err`.
pub data Pass : Type 0 where
  again failed : Pass
  break : ExecOutcome → Pass

-- What the loop does with the outcome of a system call.
unfoldable pub after_syscall :
    {I : Type 0} (m : Machine I) → SyscallResult × Table × I → Pass × Table × I
after_syscall m (continue, table, i) = (again, table, i)
after_syscall m (return_value val, table, i) = (again, table, m.set_reg_a0 val i)
after_syscall m (terminate flags bytes, table, i) =
    (break (ExecOutcome.return flags bytes), table, i)

-- The `match` on an interrupt.
unfoldable pub on_interrupt :
    {I : Type 0} (m : Machine I)
    → List SyscallId
    → Bytes
    → Table
    → Option InterruptKind × I
    → Pass × Table × I
on_interrupt m ids calldata table (none, i) = (failed, table, i)
on_interrupt m ids calldata table (some InterruptKind.finished, i) =
    (break ExecOutcome.finished, table, i)
on_interrupt m ids calldata table (some InterruptKind.trap, i) = (break ExecOutcome.trap, table, i)
on_interrupt m ids calldata table (some InterruptKind.not_enough_gas, i) =
    (break ExecOutcome.out_of_gas, table, i)
on_interrupt m ids calldata table (some InterruptKind.segfault, i) =
    (break ExecOutcome.trap, table, i)
on_interrupt m ids calldata table (some InterruptKind.step, i) = (again, table, i)
on_interrupt m ids calldata table (some (InterruptKind.ecalli idx), i) =
    after_syscall m (handle_syscall_by_id m (get ids idx) calldata table i)

unfoldable pub pass :
    {I : Type 0} (m : Machine I) → List SyscallId → Bytes → Table → I → Pass × Table × I
pass m ids calldata table i = on_interrupt m ids calldata table (m.run i)

-- Where the loop goes after a pass, with the rest of the loop given.
unfoldable pub after_pass :
    {I : Type 0}
    → Pass × Table × I
    → (Table → I → Option (Option ExecOutcome × Table × I))
    → Option (Option ExecOutcome × Table × I)
after_pass (again, t, j) rest = rest t j
after_pass (failed, t, j) rest = some (none, t, j)
after_pass (break outcome, t, j) rest = some (some outcome, t, j)

-- The loop, on fuel: `none` is a loop that has not ended yet.
unfoldable pub execution_loop :
    {I : Type 0} (m : Machine I)
    → ℕ
    → List SyscallId
    → Bytes
    → Table
    → I
    → Option (Option ExecOutcome × Table × I)
execution_loop m zero ids calldata table i = none
execution_loop m (suc fuel) ids calldata table i =
    after_pass (pass m ids calldata table i) (execution_loop m fuel ids calldata)

-- `GAS_LIMIT - instance.gas()`, on 64-bit patterns.
unfoldable pub gas_used : {I : Type 0} (m : Machine I) → I → ℕ
gas_used m i = (gas_limit + (2 ^ 64 - m.gas i % 2 ^ 64)) % 2 ^ 64

-- The `match` on the outcome. The revert flag is the lowest bit.
unfoldable pub result : {I : Type 0} (m : Machine I) → Option ExecOutcome → I → CallResult
result m none i = err execution_error
result m (some (ExecOutcome.return flags bytes)) i =
    if flags % 2 == 1 then err (reverted flags (length bytes)) else ok (gas_used m i) bytes
result m (some ExecOutcome.finished) i = ok (gas_used m i) []
result m (some ExecOutcome.trap) i = err trapped
result m (some ExecOutcome.out_of_gas) i = err out_of_gas

-- `exports().find(..)`
unfoldable pub find_call : List (Bytes × ℕ) → Option ℕ
find_call [] = none
find_call ((symbol, pc) ∷ rest) = if bytes_eq symbol (codes "call") then some pc else find_call rest

-- A call: its result and the storage afterwards, or `none` when the fuel of the loop is used up. The
-- storage is not put back when the call fails.
unfoldable pub call_with_dispatch_table :
    {I : Type 0} (m : Machine I)
    → ℕ
    → Module I
    → Bytes
    → List SyscallId
    → Table
    → Option (CallResult × Table)
call_with_dispatch_table m fuel mod_ calldata ids table = elim (find_call (mod_.exports)) [
  | none ↦ some (err no_call_export, table)
  | some pc ↦ elim (mod_.instantiate) [
    | none ↦ some (err not_instantiated, table)
    | some i ↦
        elim (execution_loop m fuel ids calldata table
          (m.prepare_call pc (m.set_gas gas_limit i))) [
            | none ↦ none
            | some (outcome, t, j) ↦ some (result m outcome j, t)
          ]
  ]
]

unfoldable pub call_with_data :
    {I : Type 0} (m : Machine I) → ℕ → Module I → Bytes → Table → Option (CallResult × Table)
call_with_data m fuel mod_ calldata table =
    call_with_dispatch_table m fuel mod_ calldata (from_module (mod_.imports)) table

abbrev pub reset_storage : Table → Table
reset_storage table = []
