-- ===== src/Fibonacci.antt =====
-- fibonacci-rust/src/fibonacci.rs: a contract that computes Fibonacci numbers in 32 bits.
pub mod Wraps
mod Examples
use risc_v_rust.Base.{ℕ, zero, suc, ◌+◌, ◌%◌, ◌^◌, Option, length, take, ltb, if◌then◌else◌}
use risc_v_rust.Base.Bytes.{Bytes, bytes_eq}
use risc_v_rust.Uniswap.Host.{M, pure, panic, return_value, unwrap, ◌>>=◌}

-- `_fibonacci`, with the sum of two `u32` wrapped.
unfoldable pub fibonacci : ℕ → ℕ
fibonacci zero = 0
fibonacci (suc zero) = 1
fibonacci (suc (suc n)) = (fibonacci (suc n) + fibonacci n) % 2 ^ 32

-- What `sol!` generates: the selector, the decoder and the encoder of the call.
pub record FibonacciAbi : Type 0 where
  pub selector : Bytes
  pub decode : Bytes → Option ℕ
  pub encode : ℕ → Bytes

module _ {E : Type 0} (abi : FibonacciAbi) where
  -- `call_data[0..4]` panics on fewer than four bytes, and an unknown selector panics as well.
  unfoldable pub call : Bytes → M E (Unit {0})
  call call_data =
      if ltb (length call_data) 4
      then panic
      else if bytes_eq (take 4 call_data) abi.selector
      then (do n ← unwrap (abi.decode call_data); return_value (abi.encode (fibonacci n)))
      else panic
