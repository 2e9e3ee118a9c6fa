-- ===== src/Fibonacci/Examples.antt =====
-- A call that asks for the tenth Fibonacci number.
use risc_v_rust.Base.{◌%◌, ◌^◌, ◌≡◌, refl, some, [], ◌∷◌, arith}
use risc_v_rust.Base.Bytes.{Bytes, to_be_bytes}
use risc_v_rust.Uniswap.Host.{World, returned}
use risc_v_rust.Fibonacci.{FibonacciAbi, call}
use risc_v_rust.Fibonacci.Wraps.{fib_pair, call-fib_pair}

abbrev asked : Bytes
asked = 1 ∷ 2 ∷ 3 ∷ 4 ∷ []

abbrev abi : FibonacciAbi
abi = record { selector = asked; decode = λ _. some 10; encode = to_be_bytes 32 }

abbrev chain : World (Unit {0})
chain = record { storage = λ _. []; rest = tt }

call-fib_pair_example :
    call abi asked chain ≡ (returned (to_be_bytes 32 ((fib_pair 10).0 % 2 ^ 32)), chain)
call-fib_pair_example = call-fib_pair abi chain asked 10 (omega arith) refl refl
