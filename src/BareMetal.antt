-- ===== src/BareMetal.antt =====
-- The bare-metal program (risc/src/main.rs): its volatile writes, in order, and that it never returns.
pub mod Devices
mod Examples
use risc_v_rust.Base.{ℕ, List, [], ◌∷◌, ◌++◌}
use risc_v_rust.Base.Bytes.{Bytes, codes}

-- `UART_ADDR`, `SIFIVE_TEST_ADDR` and `EXIT_SUCCESS`.
abbrev pub uart_addr : ℕ
uart_addr = 0x10000000

abbrev pub sifive_test_addr : ℕ
sifive_test_addr = 0x100000

abbrev pub exit_success : ℕ
exit_success = 0x5555

-- A `write_volatile`: the address, the bytes that the value's type has, and the value.
pub record Write : Type 0 where
  pub address : ℕ
  pub width : ℕ
  pub value : ℕ

-- How a function of type `!` ends.
pub data Never : Type 0 where
  loops_after : List Write → Never

unfoldable pub uart_write : ℕ → List Write
uart_write byte = record { address = uart_addr; width = 1; value = byte } ∷ []

unfoldable pub print_str : Bytes → List Write
print_str [] = []
print_str (byte ∷ s) = uart_write byte ++ print_str s

-- What was written before goes first.
unfoldable pub exit_qemu : List Write → ℕ → Never
exit_qemu before code =
    loops_after (before ++ record { address = sifive_test_addr; width = 4; value = code } ∷ [])

unfoldable pub panic : List Write → Never
panic before = loops_after (before ++ print_str (codes "PANIC!"))

unfoldable pub start : Never
start = exit_qemu (print_str (codes "Hello, world!" ++ 10 ∷ [])) exit_success
