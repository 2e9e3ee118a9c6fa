-- ===== src/Uniswap/Pair/Calls/Ensures.antt =====
-- What holds after the shared guards and conversions of the pair.
use risc_v_rust.Base.{
  ℕ, ◌^◌, ◌<◌, ◌≡◌, refl, Bool, true, false, ltb, ltb→lt, Bool-cases, inl, inr, not, ◌==◌,
}
use risc_v_rust.Base.Bytes.{Bytes}
use risc_v_rust.Uniswap.Host.{Storage, World, modify, return_value, ◌>>=◌, ◌>>◌}
use risc_v_rust.Uniswap.Host.Ensures.{Ensures}
use risc_v_rust.Uniswap.Slots.{storage_get_u256, storage_set_u256}
use risc_v_rust.Uniswap.Pair.State.{slot_unlocked}
use risc_v_rust.Uniswap.Pair.Calls.{require_unlocked, set_unlocked, unlock_and_revert_if, to_u128}

-- The world once the lock is taken.
abbrev pub locked_world : {E : Type 0} → World E → World E
locked_world w = record w { storage = storage_set_u256 slot_unlocked 0 w.storage }

module _ {E : Type 0} (r : Bytes → World E → Type 0) (w : World E) where
  pub Ensures-require_unlocked : Ensures (λ _ w'. w' ≡ locked_world w) r (require_unlocked w)
  unfolding require_unlocked ◌>>=◌
  Ensures-require_unlocked =
      elim (Bool-cases (not (storage_get_u256 slot_unlocked w.storage == 1))) [
        | inl e ↦ rw e (record { holds = tt })
        | inr e ↦ rw e (record { holds = refl })
      ]

  pub Ensures-unlock_and_revert_if :
      (b : Bool) → Ensures (λ _ w'. (b ≡ false) × (w' ≡ w)) r (unlock_and_revert_if b w)
  unfolding unlock_and_revert_if set_unlocked ◌>>=◌
  Ensures-unlock_and_revert_if true = record { holds = tt }
  Ensures-unlock_and_revert_if false = record { holds = (refl, refl) }

  pub Ensures-to_u128 :
      (x : ℕ) → Ensures (λ y w'. (y ≡ x) × (x < 2 ^ 128) × (w' ≡ w)) r (to_u128 x w)
  Ensures-to_u128 x = elim (Bool-cases (ltb x (2 ^ 128))) [
    | inl e ↦ record { holds = rw e (refl, ltb→lt x (2 ^ 128) e, refl) }
    | inr e ↦ record { holds = rw e tt }
  ]

  -- The last steps of a guarded function: a write, the release of the lock, and the return.
  pub Ensures-settle :
      (f : Storage → Storage) (d : Bytes)
      → r d (record w { storage = storage_set_u256 slot_unlocked 1 (f w.storage) })
      → Ensures {A = Unit {0}}
          (λ _ _. Unit {0})
          r
          ((modify f >> (set_unlocked >> return_value d)) w)
  unfolding set_unlocked ◌>>=◌
  Ensures-settle f d h = record { holds = h }
