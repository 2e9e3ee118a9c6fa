-- ===== src/BareMetal/Examples.antt =====
-- The program's own text and code.
use risc_v_rust.Base.{◌≡◌, [], ◌∷◌, ◌++◌, arith}
use risc_v_rust.Base.Bytes.{codes}
use risc_v_rust.BareMetal.{uart_addr, sifive_test_addr, exit_success, start}
use risc_v_rust.BareMetal.Devices.{received, all_writes, as_bytes, exit_qemu-received}

exit_qemu-received_example :
    (received uart_addr (all_writes start) ≡ as_bytes (codes "Hello, world!" ++ 10 ∷ []))
    × (received sifive_test_addr (all_writes start) ≡ (4, exit_success) ∷ [])
unfolding start
exit_qemu-received_example =
    exit_qemu-received (codes "Hello, world!" ++ 10 ∷ []) exit_success sifive_test_addr
      (omega arith)
