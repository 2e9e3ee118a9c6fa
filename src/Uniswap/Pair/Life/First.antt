-- ===== src/Uniswap/Pair/Life/First.antt =====
-- The first deposit goes through, and credits the root of its product less the locked minimum.
use risc_v_rust.Base.{
  ℕ, ◌+◌, ◌-◌, ◌*◌, ◌^◌, ◌≤◌, ◌<◌, ◌≡◌, refl, ap, ◌∙◌, some, arith, ◌==◌, leb, ltb, ltb→lt, ltb→le,
  if◌then◌else◌, Bool-cases, inl, inr,
}
use risc_v_rust.Base.Bytes.{Bytes, zeros, to_be_bytes, from_be_slice}
use risc_v_rust.Base.Word.{sub256, add256, mul256, mul_mono}
use risc_v_rust.Uniswap.Math.{sqrt_u256}
use risc_v_rust.Uniswap.Math.Sqrt.{IsRoot, sqrt_u256-IsRoot}
use risc_v_rust.Uniswap.Host.{next, returned, Storage, World, Host, unwrap, pure}
use risc_v_rust.Uniswap.Host.Ensures.{bind-next}
use risc_v_rust.Uniswap.Slots.{storage_get_u256, storage_set_u256}
use risc_v_rust.Uniswap.Pair.Abi.{Decoders}
use risc_v_rust.Uniswap.Pair.State.{
  minimum_liquidity, slot_unlocked, slot_total_supply, get_token0, get_token1, get_reserves,
  get_balance, set_balance, set_reserves,
}
use risc_v_rust.Uniswap.Pair.Calls.Ensures.{locked_world}
use risc_v_rust.Uniswap.Pair.Liquidity.{first_liquidity, later_liquidity, mint}
use risc_v_rust.Uniswap.Pair.Lock.{lock}
use risc_v_rust.Uniswap.Pair.Life.Tokens.{Answers}
use risc_v_rust.Uniswap.Pair.Life.Live.{passes}
use risc_v_rust.Uniswap.Pair.Life.Burn.{modify-next}
use risc_v_rust.Uniswap.Pair.Life.Mint.{mint_of_shares}

root_above : (y r : ℕ) → 1001 * 1001 ≤ y → IsRoot y r → 1001 ≤ r
root_above y r h root = elim (Bool-cases (ltb r 1001)) [
  | inl below ↦
      let small = ltb→lt r 1001 below in
      absurd (omega (arith, small, root.1, h, mul_mono (r + 1) (r + 1) 1001 (omega arith)))
  | inr above ↦ ltb→le r 1001 above
]

unwraps : {E A : Type 0} (a : A) (w : World E) → unwrap (some a) w ≡ (next a, w)
unfolding unwrap
unwraps a w = refl

module _ {E : Type 0} (abi : Decoders) (host : Host E) (tokens : Answers host) (w : World E)
    (call_data to : Bytes) (b0 b1 now : ℕ) (decoded : abi.mint call_data ≡ some to) where
  open host use {address, hash_keccak_256}
  open tokens use {balance}

  abbrev st : Storage
  st = (locked_world w).storage

  abbrev r0 : ℕ
  r0 = (get_reserves st).0

  abbrev r1 : ℕ
  r1 = (get_reserves st).1

  abbrev total : ℕ
  total = storage_get_u256 slot_total_supply st

  -- The storage with the minimum locked.
  abbrev pub founded : Storage
  founded =
      set_balance hash_keccak_256 (zeros 20) minimum_liquidity
        (storage_set_u256 slot_total_supply minimum_liquidity st)

  founds :
      (root : ℕ)
      → total ≡ 0
      → (b0 - r0) * (b1 - r1) < 2 ^ 256
      → 1001 ≤ root
      → root < 2 ^ 256
      → sqrt_u256 ((b0 - r0) * (b1 - r1)) ≡ some root
      → (if total == 0
            then first_liquidity abi host (b0 - r0) (b1 - r1) total
            else later_liquidity abi host (b0 - r0) (b1 - r1) r0 r1 total)
          (locked_world w)
        ≡ (next (root - 1000), record (locked_world w) { storage = founded })
  unfolding first_liquidity pure
  founds root none_yet small above fits found =
      let w1 = locked_world w in
      let plain : mul256 (b0 - r0) (b1 - r1) ≡ (b0 - r0) * (b1 - r1) = omega arith in
      let rest : sub256 root minimum_liquidity ≡ root - 1000 = omega arith in
      let w2 : World E = record w1 {
        storage = storage_set_u256 slot_total_supply minimum_liquidity st;
      } in
      let w3 : World E = record w1 { storage = founded } in
      rw none_yet (
        bind-next _ _ w1 (rw (plain, found) (unwraps root w1))
        ∙ bind-next _ _ w1 (passes (leb root minimum_liquidity) w1 (ground arith))
        ∙ bind-next _ _ w1 (modify-next _ w1)
        ∙ bind-next _ _ w2 (modify-next _ w2)
        ∙ ap (λ x. (next x, w3)) rest)

  -- An unlocked pair without liquidity serves a first deposit: tokens that answer, with balances below 2 ^ 128 and at least the
  -- reserves; amounts whose product is at least 1001 * 1001 and below 2 ^ 256; and a clock below 2 ^ 32. Such a mint returns
  -- the integer root of the product less 1000, and credits the receiver with it; the zero address is given 1000, and
  -- the supply becomes 1000.
  pub mint_first-returns :
      lock w ≡ 1
      → balance (get_token0 st) address w.rest ≡ b0
      → balance (get_token1 st) address w.rest ≡ b1
      → b0 < 2 ^ 128
      → b1 < 2 ^ 128
      → r0 ≤ b0
      → r1 ≤ b1
      → total ≡ 0
      → 1001 * 1001 ≤ (b0 - r0) * (b1 - r1)
      → (b0 - r0) * (b1 - r1) < 2 ^ 256
      → from_be_slice (host.now w.rest) ≡ now
      → now < 2 ^ 32
      → (root : ℕ) × IsRoot ((b0 - r0) * (b1 - r1)) root
        × (mint abi host call_data w ≡ (
          returned (to_be_bytes 32 (root - 1000)),
          record w {
            storage = storage_set_u256 slot_unlocked 1 (
                set_reserves b0 b1 now (
                  set_balance hash_keccak_256 to
                    (add256 (get_balance hash_keccak_256 to founded) (root - 1000))
                    founded));
          },
        ))
  mint_first-returns free e0 e1 h0 h1 in0 in1 none_yet large small time early =
      let (root, found, square) = sqrt_u256-IsRoot ((b0 - r0) * (b1 - r1)) small in
      let above = root_above _ root large square in
      let least : root ≤ root * root = omega (arith, mul_mono root 1 root (omega (arith, above))) in
      let fits : root < 2 ^ 256 = omega (arith, square.0, small, least) in
      (
        root,
        square,
        mint_of_shares abi host tokens w call_data to b0 b1 now decoded (root - 1000) founded free
            e0 e1 h0 h1 in0 in1 (founds root none_yet small above fits found) time early,
      )
