-- ===== src/Uniswap/Pair/Life/Burn.antt =====
-- A burn of a share goes through, and pays no more than the pair has.
use native.Mathlib.Nat.{div-le_of_le-mul}
use risc_v_rust.Base.{ℕ, ◌*◌, ◌/◌, ◌^◌, ◌≤◌, ◌<◌, ◌≡◌, refl, ◌∙◌, false, some, arith, ◌==◌, ◌||◌}
use risc_v_rust.Base.Bytes.{Bytes, copy_from_slice, zeros, to_be_bytes, from_be_slice}
use risc_v_rust.Base.Word.{sub256, mul256, mul_mono}
use risc_v_rust.Uniswap.Host.{
  next, returned, Storage, World, Host, modify, checked_div, ◌>>=◌, ◌>>◌,
}
use risc_v_rust.Uniswap.Host.Ensures.{bind-next}
use risc_v_rust.Uniswap.Slots.{storage_get_u256, storage_set_u256}
use risc_v_rust.Uniswap.Pair.Abi.{Decoders}
use risc_v_rust.Uniswap.Pair.State.{
  slot_unlocked, slot_total_supply, get_token0, get_token1, get_balance, set_balance, set_reserves,
}
use risc_v_rust.Uniswap.Pair.Calls.{set_unlocked, return_tuple_u256_u256}
use risc_v_rust.Uniswap.Pair.Calls.Ensures.{locked_world}
use risc_v_rust.Uniswap.Pair.Liquidity.{burn}
use risc_v_rust.Uniswap.Pair.Lock.{lock}
use risc_v_rust.Uniswap.Pair.Life.Tokens.{Answers}
use risc_v_rust.Uniswap.Pair.State.Balances.{IsAddress}
use risc_v_rust.Uniswap.Pair.Life.Live.{
  require_unlocked-next, passes, decodes, to_u128-next, gets-next, balance-next, transfers,
  now-next,
}

module _ {E : Type 0} where
  pub modify-next :
      (f : Storage → Storage) (w : World E)
      → modify f w ≡ (next tt, record w { storage = f w.storage })
  unfolding modify
  modify-next f w = refl

  -- A share of a balance, where the product does not overflow.
  pub share-next :
      (liquidity balance total : ℕ) (w : World E)
      → 0 < total
      → liquidity * balance < 2 ^ 256
      → checked_div (mul256 liquidity balance) total w ≡ (next (liquidity * balance / total), w)
  unfolding checked_div
  share-next liquidity balance total w positive small =
      let some_supply : (total == 0) ≡ false = ground arith in
      let plain : mul256 liquidity balance ≡ liquidity * balance = omega arith in
      rw (plain, some_supply) refl

  settles_with :
      (f : Storage → Storage) (a0 a1 : ℕ) (w : World E)
      → (modify f >> (set_unlocked >> return_tuple_u256_u256 a0 a1)) w ≡ (
        returned (
            copy_from_slice
              (copy_from_slice (zeros 64) 0 (to_be_bytes 32 a0))
              32
              (to_be_bytes 32 a1)),
        record w { storage = storage_set_u256 slot_unlocked 1 (f w.storage) },
      )
  unfolding set_unlocked ◌>>=◌
  settles_with f a0 a1 w = refl

share_bound :
    (liquidity balance total : ℕ) → liquidity ≤ total → liquidity * balance / total ≤ balance
share_bound liquidity balance total h =
    div-le_of_le-mul total (omega (arith, mul_mono balance liquidity total h))

module _ {E : Type 0} (abi : Decoders) (host : Host E) (tokens : Answers host) (w : World E)
    (call_data to : Bytes) (b0 b1 n0 n1 now : ℕ) (decoded : abi.burn call_data ≡ some to) where
  open host use {address, hash_keccak_256}
  open tokens use {balance, transferred}

  -- What the pair reads once the lock is taken: its own share, the supply, and the tokens.
  abbrev st : Storage
  st = (locked_world w).storage

  abbrev share : ℕ
  share = get_balance hash_keccak_256 address st

  abbrev total : ℕ
  total = storage_get_u256 slot_total_supply st

  abbrev a0 : ℕ
  a0 = share * b0 / total

  abbrev a1 : ℕ
  a1 = share * b1 / total

  -- The rest of the chain after each payment, and the storage with the share burned.
  abbrev paid0 : E
  paid0 = transferred (get_token0 st) to a0 w.rest

  abbrev paid : E
  paid = transferred (get_token1 st) to a1 paid0

  abbrev pub burned : Storage
  burned =
      storage_set_u256 slot_total_supply (sub256 total share)
        (set_balance hash_keccak_256 address 0 st)

  -- An unlocked pair serves the burn of a share that is sent to it: a receiver with an address of twenty bytes; tokens that
  -- answer, with balances below 2 ^ 128 before and
  -- after; a share that is not zero and at most the supply; products that do not overflow; amounts that are not zero; and
  -- a clock below 2 ^ 32. Such a burn returns the two amounts, which are the share of each balance and at most the balance, and
  -- takes the share from the supply.
  pub burn-returns :
      IsAddress to
      → lock w ≡ 1
      → balance (get_token0 st) address w.rest ≡ b0
      → balance (get_token1 st) address w.rest ≡ b1
      → 0 < share
      → share ≤ total
      → share * b0 < 2 ^ 256
      → share * b1 < 2 ^ 256
      → (a0 == 0 || a1 == 0) ≡ false
      → b0 < 2 ^ 128
      → b1 < 2 ^ 128
      → balance (get_token0 st) address paid ≡ n0
      → balance (get_token1 st) address paid ≡ n1
      → n0 < 2 ^ 128
      → n1 < 2 ^ 128
      → from_be_slice (host.now paid) ≡ now
      → now < 2 ^ 32
      → (burn abi host call_data w ≡ (
        returned (
            copy_from_slice
              (copy_from_slice (zeros 64) 0 (to_be_bytes 32 a0))
              32
              (to_be_bytes 32 a1)),
        record {
          storage = storage_set_u256 slot_unlocked 1 (set_reserves n0 n1 now burned);
          rest = paid;
        },
      ))
        × (a0 ≤ b0)
        × (a1 ≤ b1)
  unfolding burn
  burn-returns a free e0 e1 some_share part small0 small1 pays h0 h1 f0 f1 k0 k1 time early =
      let w1 = locked_world w in
      let w2 : World E = record w1 { storage = set_balance hash_keccak_256 address 0 st } in
      let w3 : World E = record w1 { storage = burned } in
      let w4 : World E = record { storage = burned; rest = paid0 } in
      let w5 : World E = record { storage = burned; rest = paid } in
      (
        bind-next _ _ w (require_unlocked-next w free)
            ∙ bind-next _ _ w1 (decodes _ to w1 decoded)
            ∙ bind-next _ _ w1 (gets-next (get_balance hash_keccak_256 address) w1)
            ∙ bind-next _ _ w1 (passes _ w1 (ground arith))
            ∙ bind-next _ _ w1 (gets-next (storage_get_u256 slot_total_supply) w1)
            ∙ bind-next _ _ w1 (gets-next get_token0 w1)
            ∙ bind-next _ _ w1 (gets-next get_token1 w1)
            ∙ bind-next _ _ w1 (balance-next abi host tokens _ w1 b0 e0 h0)
            ∙ bind-next _ _ w1 (balance-next abi host tokens _ w1 b1 e1 h1)
            ∙ bind-next _ _ w1 (share-next share b0 total w1 (omega arith) small0)
            ∙ bind-next _ _ w1 (share-next share b1 total w1 (omega arith) small1)
            ∙ bind-next _ _ w1 (passes _ w1 pays)
            ∙ bind-next _ _ w1 (modify-next _ w1)
            ∙ bind-next _ _ w2 (modify-next _ w2)
            ∙ bind-next _ _ w3 (transfers abi host tokens (get_token0 st) to a0 w3 a)
            ∙ bind-next _ _ w4 (transfers abi host tokens (get_token1 st) to a1 w4 a)
            ∙ bind-next _ _ w5 (balance-next abi host tokens _ w5 n0 f0 k0)
            ∙ bind-next _ _ w5 (balance-next abi host tokens _ w5 n1 f1 k1)
            ∙ bind-next _ _ w5 (to_u128-next n0 w5 k0)
            ∙ bind-next _ _ w5 (to_u128-next n1 w5 k1)
            ∙ bind-next _ _ w5 (now-next abi host tokens w5 now time early)
            ∙ settles_with (set_reserves n0 n1 now) a0 a1 w5,
        share_bound share b0 total part,
        share_bound share b1 total part,
      )
