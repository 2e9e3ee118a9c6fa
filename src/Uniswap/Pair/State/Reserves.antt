-- ===== src/Uniswap/Pair/State/Reserves.antt =====
-- The packed reserves: what `get_reserves` reads of what `set_reserves` wrote.
use risc_v_rust.Base.{
  ℕ, ◌+◌, ◌-◌, ◌*◌, ◌/◌, ◌%◌, ◌^◌, ◌<◌, ◌≡◌, ◌↔◌, bit_and, bit_or, ap, ◌∙◌, arith,
}
use risc_v_rust.Base.Bits.{bit_or-shifted, bit_and-mask, bit_and-lt}
use risc_v_rust.Base.Word.{shl256}
use risc_v_rust.Uniswap.Host.{Storage}
use risc_v_rust.Uniswap.Slots.{storage_get_u256, storage_set_u256}
use risc_v_rust.Uniswap.Slots.Laws.{storage_get_u256-storage_set_u256}
use risc_v_rust.Uniswap.Pair.State.{slot_reserves, slot_unlocked, get_reserves, set_reserves}

module _ (r0 r1 ts : ℕ) (h1 : r1 < 2 ^ 112) (ht : ts < 2 ^ 32) where
  abbrev packed_sum : ℕ
  packed_sum = r0 % 2 ^ 112 * 2 ^ 144 + r1 * 2 ^ 32 + ts

  packed_word : bit_or (bit_or (shl256 r0 144) (shl256 r1 32)) ts ≡ packed_sum
  packed_word =
      let hi : shl256 r0 144 ≡ r0 % 2 ^ 112 * 2 ^ 144 = omega arith in
      let mid : shl256 r1 32 ≡ r1 * 2 ^ 32 = omega arith in
      let outer : bit_or (shl256 r0 144) (shl256 r1 32) ≡ (r0 % 2 ^ 112 * 2 ^ 112 + r1) * 2 ^ 32 =
        rw (hi, mid)
          (bit_or-shifted 112 144 (r0 % 2 ^ 112) (r1 * 2 ^ 32) (omega arith) (omega arith)
            ∙ omega arith) in
      rw outer
        (bit_or-shifted 224 32 (r0 % 2 ^ 112 * 2 ^ 112 + r1) ts (omega arith) ht ∙ omega arith)

  stored : (st : Storage) → storage_get_u256 slot_reserves (set_reserves r0 r1 ts st) ≡ packed_sum
  unfolding set_reserves
  stored st = rw packed_word (
      storage_get_u256-storage_set_u256 slot_reserves slot_reserves packed_sum st (omega arith)
        (omega arith)
      ∙ omega arith)

  -- The reserves that are read after a write, where the second fits 112 bits: the first is cut to
  -- 112 bits, and the low 16 bits of the first stand above the second.
  pub get_reserves-set_reserves :
      (st : Storage)
      → get_reserves (set_reserves r0 r1 ts st) ≡ (r0 % 2 ^ 112, r0 % 2 ^ 16 * 2 ^ 112 + r1, ts)
  unfolding get_reserves
  get_reserves-set_reserves st =
      let a : bit_and (packed_sum / 2 ^ 144) (2 ^ 128 - 1) ≡ r0 % 2 ^ 112 =
        omega (arith, bit_and-mask 256 128 (packed_sum / 2 ^ 144) (omega arith)) in
      let b : bit_and (packed_sum / 2 ^ 32) (2 ^ 128 - 1) ≡ r0 % 2 ^ 16 * 2 ^ 112 + r1 =
        omega (arith, bit_and-mask 256 128 (packed_sum / 2 ^ 32) (omega arith)) in
      let c : bit_and packed_sum (2 ^ 32 - 1) ≡ ts =
        omega (arith, bit_and-mask 256 32 packed_sum (omega arith)) in
      rw (stored st) λ i. (a i, b i, c i)

-- Where the second reserve fits 112 bits and the time 32 bits: the reserves that are read after a write
-- are those written exactly when the first fits 112 bits and is a multiple of 2 ^ 16.
pub reserves_survive_iff :
    (r0 r1 ts : ℕ) (st : Storage)
    → r1 < 2 ^ 112
    → ts < 2 ^ 32
    → (get_reserves (set_reserves r0 r1 ts st) ≡ (r0, r1, ts))
      ↔ ((r0 < 2 ^ 112) × (r0 % 2 ^ 16 ≡ 0))
reserves_survive_iff r0 r1 ts st h1 ht = rw (get_reserves-set_reserves r0 r1 ts h1 ht st) (
  (λ e.
      (omega (arith, ap (λ (t : ℕ × ℕ × ℕ). t.0) e), omega (arith, ap (λ (t : ℕ × ℕ × ℕ). t.1) e))),
  λ h.
      let a : r0 % 2 ^ 112 ≡ r0 = omega arith in
      let b : r0 % 2 ^ 16 * 2 ^ 112 + r1 ≡ r1 = omega arith in λ i. (a i, b i, ts),
)

-- The lock does not touch the reserves.
pub get_reserves-lock :
    (v : ℕ) (st : Storage) → get_reserves (storage_set_u256 slot_unlocked v st) ≡ get_reserves st
unfolding get_reserves
get_reserves-lock v st =
    rw (
      storage_get_u256-storage_set_u256 slot_reserves slot_unlocked v st (omega arith)
        (omega arith))

-- The time that is read fits 32 bits.
pub get_reserves_time : (st : Storage) → (get_reserves st).2 < 2 ^ 32
unfolding get_reserves
get_reserves_time st = bit_and-lt 32 (storage_get_u256 slot_reserves st)
