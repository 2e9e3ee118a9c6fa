-- ===== src/BareMetal/Devices.antt =====
-- What the devices receive.
use risc_v_rust.Base.{
  Bool-cases, inl, inr, append-nil, ℕ, ◌≡◌, ◌≢◌, refl, ◌∙◌, List, [], ◌∷◌, ◌++◌, arith, ◌==◌,
  if◌then◌else◌,
}
use risc_v_rust.Base.Bytes.{Bytes}
use risc_v_rust.BareMetal.{
  uart_addr, sifive_test_addr, Write, Never, loops_after, uart_write, print_str, exit_qemu,
}

-- The values written at an address, with their widths.
unfoldable pub received : ℕ → List Write → List (ℕ × ℕ)
received a [] = []
received a (w ∷ ws) = if w.address == a then (w.width, w.value) ∷ received a ws else received a ws

unfoldable pub all_writes : Never → List Write
all_writes (loops_after ws) = ws

abbrev pub as_bytes : Bytes → List (ℕ × ℕ)
as_bytes [] = []
as_bytes (b ∷ s) = (1, b) ∷ as_bytes s

received-append :
    (a : ℕ) (xs ys : List Write) → received a (xs ++ ys) ≡ received a xs ++ received a ys
unfolding received
received-append a [] ys = refl
received-append a (x ∷ xs) ys = elim (Bool-cases (x.address == a)) [
  | inl h ↦ rw h (rw (received-append a xs ys))
  | inr h ↦ rw h (received-append a xs ys)
]

received-print_str : (s : Bytes) → received uart_addr (print_str s) ≡ as_bytes s
unfolding received print_str uart_write
received-print_str [] = refl
received-print_str (b ∷ s) = rw (received-print_str s)

received_elsewhere : (a : ℕ) (s : Bytes) → a ≢ uart_addr → received a (print_str s) ≡ []
unfolding received print_str uart_write
received_elsewhere a [] ne = refl
received_elsewhere a (b ∷ s) ne = ground (arith, received_elsewhere a s ne)

-- A text that is printed before the exit reaches the UART byte by byte, and no other device but the one that is told the
-- code, once and with four bytes.
pub exit_qemu-received :
    (s : Bytes) (code a : ℕ)
    → a ≢ uart_addr
    → (received uart_addr (all_writes (exit_qemu (print_str s) code)) ≡ as_bytes s)
      × (received a (all_writes (exit_qemu (print_str s) code))
          ≡ (if sifive_test_addr == a then (4, code) ∷ [] else []))
unfolding exit_qemu received all_writes
exit_qemu-received s code a ne =
    let end = record { address = sifive_test_addr; width = 4; value = code } ∷ [] in
    (
      received-append uart_addr (print_str s) end
          ∙ rw (received-print_str s) (append-nil (as_bytes s)),
      received-append a (print_str s) end ∙ rw (received_elsewhere a s ne) refl,
    )
