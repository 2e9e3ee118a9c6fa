-- ===== src/Runner/Machine.antt =====
-- What the runner uses of a PolkaVM instance, and the outcome of a system call (lines 41 to 61).
use risc_v_rust.Base.{ℕ, ◌+◌, ◌-◌, ◌^◌, Option}
use Prim.Native.Nat.{min}
use risc_v_rust.Base.Bytes.{Bytes}

-- `InterruptKind` of the crate polkavm.
pub data InterruptKind : Type 0 where
  finished trap not_enough_gas segfault step : InterruptKind
  ecalli : ℕ → InterruptKind

-- `RawInstance`, and the hash. Registers and gas are 64-bit patterns. The runner drops the errors of
-- memory accesses, so a write is the machine afterwards, and a read the buffer afterwards. `run` gives
-- `none` for an `Err`.
pub record Machine (I : Type 0) : Type 0 where
  pub reg_a0 : I → ℕ
  pub reg_a1 : I → ℕ
  pub reg_a2 : I → ℕ
  pub set_reg_a0 : ℕ → I → I
  pub write_memory : ℕ → Bytes → I → I
  pub zero_memory : ℕ → ℕ → I → I
  pub read_memory_into : I → ℕ → Bytes → Bytes
  pub gas : I → ℕ
  pub set_gas : ℕ → I → I
  pub prepare_call : ℕ → I → I
  pub run : I → Option InterruptKind × I
  pub keccak256 : Bytes → Bytes

pub data SyscallResult : Type 0 where
  continue : SyscallResult
  return_value : ℕ → SyscallResult
  terminate : ℕ → Bytes → SyscallResult

pub data ExecOutcome : Type 0 where
  return : ℕ → Bytes → ExecOutcome
  trap out_of_gas finished : ExecOutcome

abbrev pub u32_max : ℕ
u32_max = 2 ^ 32 - 1

-- `usize::saturating_add`
abbrev pub saturating_add : ℕ → ℕ → ℕ
saturating_add a b = min (a + b) (2 ^ 64 - 1)
