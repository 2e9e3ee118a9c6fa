-- ===== src/Uniswap/Pair/Life/Swap.antt =====
-- A fair swap goes through.
use risc_v_rust.Base.{ℕ, ◌≡◌, some}
use risc_v_rust.Base.Bytes.{Bytes}
use risc_v_rust.Uniswap.Host.{World, Host}
use risc_v_rust.Uniswap.Pair.Abi.{Decoders}
use risc_v_rust.Uniswap.Pair.State.{get_token0, get_token1, get_reserves}
use risc_v_rust.Uniswap.Pair.Calls.Ensures.{locked_world}
use risc_v_rust.Uniswap.Pair.Trade.{swap}
use risc_v_rust.Uniswap.Pair.Life.Tokens.{Answers}
use risc_v_rust.Uniswap.Pair.Life.Live.{after_payment}

module _ {E : Type 0} (abi : Decoders) (host : Host E) (tokens : Answers host) (w : World E)
    (call_data : Bytes) (o0 o1 : ℕ) (to extra : Bytes) (b0 b1 now : ℕ)
    (decoded : abi.swap call_data ≡ some (o0, o1, to, extra)) where
  open host use {address}
  open tokens use {balance}

  -- The world once the lock is taken, the reserves and the tokens that are read there, and the rest of the chain
  -- after both payments.
  abbrev w1 : World E
  w1 = locked_world w

  abbrev r0 : ℕ
  r0 = (get_reserves w1.storage).0

  abbrev r1 : ℕ
  r1 = (get_reserves w1.storage).1

  abbrev t0 : Bytes
  t0 = get_token0 w1.storage

  abbrev t1 : Bytes
  t1 = get_token1 w1.storage

  abbrev paid : E
  paid = after_payment abi host tokens t1 to o1 (after_payment abi host tokens t0 to o0 w1.rest)
