-- ===== src/Uniswap/Pair/Life.antt =====
-- The life of a pair: it is deployed, then called any number of times, by anyone and at any time.
pub mod Free
pub mod Fixed
pub mod Tokens
pub mod Live
pub mod Swap
pub mod Burn
pub mod Mint
pub mod First
use risc_v_rust.Base.{◌≡◌}
use risc_v_rust.Base.Bytes.{Bytes}
use risc_v_rust.Uniswap.Host.{next, returned, World, Host}
use risc_v_rust.Uniswap.Pair.Abi.{Selectors, Decoders}
use risc_v_rust.Uniswap.Pair.Calls.{deploy}
use risc_v_rust.Uniswap.Pair.Dispatch.{call}

-- The worlds that a pair comes to. The host, with the caller, the time and the other contracts, may be
-- another at each call; its hash may not. A call that reverts or traps is rolled back, and is no step.
-- `elsewhere` is what happens to the rest of the chain.
pub data Reach {E : Type 0} (sel : Selectors) (abi : Decoders) (hash : Bytes → Bytes)
    : World E → Type 0 where
  deployed :
      (host : Host E) (w w' : World E)
      → host.hash_keccak_256 ≡ hash
      → deploy host w ≡ (next tt, w')
      → Reach sel abi hash w'
  called :
      {w : World E} (host : Host E) (call_data d : Bytes) (w' : World E)
      → Reach sel abi hash w
      → host.hash_keccak_256 ≡ hash
      → call sel abi host call_data w ≡ (returned d, w')
      → Reach sel abi hash w'
  elsewhere :
      {w : World E} (e : E) (w' : World E)
      → Reach sel abi hash w
      → w' ≡ record w { rest = e }
      → Reach sel abi hash w'
