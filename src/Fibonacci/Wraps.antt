-- ===== src/Fibonacci/Wraps.antt =====
-- The contract's replies against the Fibonacci numbers.
use risc_v_rust.Base.{ℕ, zero, suc, ◌+◌, ◌%◌, ◌^◌, ◌≤◌, ◌≡◌, ◌∙◌, refl, some, arith, length, take}
use risc_v_rust.Base.Bytes.{Bytes, bytes_eq_refl}
use risc_v_rust.Uniswap.Host.{World, returned, ◌>>=◌}
use risc_v_rust.Fibonacci.{fibonacci, FibonacciAbi, call}

-- Two neighbouring Fibonacci numbers, by `n` steps from 0 and 1.
unfoldable pub fib_pair : ℕ → ℕ × ℕ
fib_pair zero = (0, 1)
fib_pair (suc n) = let (a, b) = fib_pair n in (b, a + b)

fibonacci_base : (fibonacci 0 ≡ 0) × (fibonacci 1 ≡ 1)
unfolding fibonacci
fibonacci_base = (refl, refl)

fibonacci_step : (n : ℕ) → fibonacci (suc (suc n)) ≡ (fibonacci (suc n) + fibonacci n) % 2 ^ 32
unfolding fibonacci
fibonacci_step n = refl

fibonacci-fib_pair :
    (n : ℕ)
    → (fibonacci n ≡ (fib_pair n).0 % 2 ^ 32) × (fibonacci (suc n) ≡ (fib_pair n).1 % 2 ^ 32)
unfolding fib_pair
fibonacci-fib_pair zero = fibonacci_base
fibonacci-fib_pair (suc n) =
    let h = fibonacci-fib_pair n in (h.1, fibonacci_step n ∙ omega (arith, h.0, h.1))

module _ {E : Type 0} (abi : FibonacciAbi) (w : World E) where
  -- A call of four bytes or more with the selector replies with the Fibonacci number of the decoded
  -- argument, cut to 32 bits, and changes nothing.
  pub call-fib_pair :
      (call_data : Bytes) (n : ℕ)
      → 4 ≤ length call_data
      → take 4 call_data ≡ abi.selector
      → abi.decode call_data ≡ some n
      → call abi call_data w ≡ (returned (abi.encode ((fib_pair n).0 % 2 ^ 32)), w)
  unfolding call ◌>>=◌
  call-fib_pair call_data n long same e =
      ground (arith, bytes_eq_refl abi.selector, fibonacci-fib_pair n)
