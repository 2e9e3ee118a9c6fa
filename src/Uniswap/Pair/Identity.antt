-- ===== src/Uniswap/Pair/Identity.antt =====
-- The factory and the two tokens of a pair, which no function but the constructor and `initialize`
-- writes.
pub mod Kept
use risc_v_rust.Base.{ℕ, ◌^◌, ◌≤◌, ◌<◌, ◌≡◌, ◌∙◌, arith}
use risc_v_rust.Base.Bytes.{Bytes}
use risc_v_rust.Uniswap.Host.{Storage}
use risc_v_rust.Uniswap.Slots.{storage_get_u256, storage_set_u256}
use risc_v_rust.Uniswap.Slots.Keys.{NoCollision}
use risc_v_rust.Uniswap.Slots.Laws.{storage_get_u256-storage_set_u256}
use risc_v_rust.Uniswap.Pair.State.{
  slot_factory, slot_token0, slot_token1, slot_unlocked, slot_total_supply, set_reserves,
  set_balance, set_allowance,
}
use risc_v_rust.Uniswap.Pair.State.Balances.{slot-set_balance, slot-set_allowance}

-- The words in the three slots.
abbrev pub Identity : ℕ → ℕ → ℕ → Storage → Type 0
Identity factory token0 token1 st =
    (storage_get_u256 slot_factory st ≡ factory)
    × (storage_get_u256 slot_token0 st ≡ token0)
    × (storage_get_u256 slot_token1 st ≡ token1)

module _ (f a b : ℕ) where
  Identity-slot :
      (i v : ℕ)
      → 3 ≤ i
      → i < 2 ^ 32
      → (st : Storage) → Identity f a b st
      → Identity f a b (storage_set_u256 i v st)
  Identity-slot i v h k st (x, y, z) = (
    ground (arith, storage_get_u256-storage_set_u256 slot_factory i v st),
    ground (arith, storage_get_u256-storage_set_u256 slot_token0 i v st),
    ground (arith, storage_get_u256-storage_set_u256 slot_token1 i v st),
  )

  pub Identity-unlocked :
      (v : ℕ) (st : Storage)
      → Identity f a b st
      → Identity f a b (storage_set_u256 slot_unlocked v st)
  Identity-unlocked v = Identity-slot slot_unlocked v (omega arith) (omega arith)

  pub Identity-total_supply :
      (v : ℕ) (st : Storage)
      → Identity f a b st
      → Identity f a b (storage_set_u256 slot_total_supply v st)
  Identity-total_supply v = Identity-slot slot_total_supply v (omega arith) (omega arith)

  pub Identity-set_reserves :
      (r0 r1 ts : ℕ) (st : Storage) → Identity f a b st → Identity f a b (set_reserves r0 r1 ts st)
  unfolding set_reserves
  Identity-set_reserves r0 r1 ts = Identity-slot 3 _ (omega arith) (omega arith)

  module _ (hash : Bytes → Bytes) (ideal : NoCollision hash) where
    pub Identity-set_balance :
        (who : Bytes) (v : ℕ) (st : Storage)
        → Identity f a b st
        → Identity f a b (set_balance hash who v st)
    Identity-set_balance who v st (x, y, z) = (
      slot-set_balance hash ideal slot_factory who v st ∙ x,
      slot-set_balance hash ideal slot_token0 who v st ∙ y,
      slot-set_balance hash ideal slot_token1 who v st ∙ z,
    )

    pub Identity-set_allowance :
        (who to : Bytes) (v : ℕ) (st : Storage)
        → Identity f a b st
        → Identity f a b (set_allowance hash who to v st)
    Identity-set_allowance who to v st (x, y, z) = (
      slot-set_allowance hash ideal slot_factory who to v st ∙ x,
      slot-set_allowance hash ideal slot_token0 who to v st ∙ y,
      slot-set_allowance hash ideal slot_token1 who to v st ∙ z,
    )
