-- ===== src/Uniswap/Pair/Liquidity/Shares.antt =====
-- What the two ways to compute the shares of a mint do to the supply and the balances (lines 311 to 337).
use risc_v_rust.Base.{
  ℕ, ◌%◌, ◌^◌, ◌≡◌, ◌∙◌, refl, ap, false, Bool-cases, inl, inr, arith, ltb, Option, none, some,
  ◌==◌, ◌&&◌, if◌then◌else◌,
}
use risc_v_rust.Base.Bytes.{Bytes, bytes_eq, zeros, from_be_slice}
use risc_v_rust.Base.Word.{add256}
use risc_v_rust.Uniswap.Host.{Storage, World, Host, modify, pure, unwrap, checked_div, ◌>>=◌, ◌>>◌}
use risc_v_rust.Uniswap.Host.Ensures.{Ensures, Ensures-bind}
use risc_v_rust.Uniswap.Slots.{storage_get_u256, storage_set_u256}
use risc_v_rust.Uniswap.Slots.Keys.{NoCollision}
use risc_v_rust.Uniswap.Slots.Laws.{storage_get_u256-storage_set_u256}
use risc_v_rust.Uniswap.Pair.Abi.{Decoders}
use risc_v_rust.Uniswap.Pair.State.{slot_total_supply, get_balance, minimum_liquidity}
use risc_v_rust.Uniswap.Pair.State.Balances.{
  IsAddress, slot-set_balance, get_balance-set_balance, get_balance-set_slot,
}
use risc_v_rust.Uniswap.Pair.Calls.{to_u128, now_secs}
use risc_v_rust.Uniswap.Pair.Calls.Ensures.{Ensures-unlock_and_revert_if}
use risc_v_rust.Uniswap.Pair.Liquidity.{first_liquidity, later_liquidity}

-- A supply and a balance, as a mint of `liquidity` makes them from those that it found: the first mint
-- makes the supply the locked minimum, which it gives to the zero address, and no other mint does that.
abbrev pub supply_after : ℕ → ℕ → ℕ
supply_after t liquidity = if t == 0 then minimum_liquidity else add256 t liquidity

abbrev pub held_before : Bytes → ℕ → ℕ → ℕ
held_before to t held = if t == 0 && bytes_eq (zeros 20) to then minimum_liquidity else held

module _ {E : Type 0} (r : Bytes → World E → Type 0) (w : World E) where
  pub Ensures-modify :
      (f : Storage → Storage)
      → Ensures (λ _ w'. w' ≡ record w { storage = f w.storage }) r (modify f w)
  unfolding modify
  Ensures-modify f = record { holds = refl }

  pub same-to_u128 : (x : ℕ) → Ensures (λ _ w'. w' ≡ w) r (to_u128 x w)
  same-to_u128 x = elim (Bool-cases (ltb x (2 ^ 128))) [
    | inl e ↦ record { holds = rw e refl }
    | inr e ↦ record { holds = rw e tt }
  ]

  same-unwrap : {A : Type 0} (o : Option A) → Ensures (λ _ w'. w' ≡ w) r (unwrap o w)
  unfolding unwrap
  same-unwrap none = record { holds = tt }
  same-unwrap (some a) = record { holds = refl }

  same-checked_div : (a b : ℕ) → Ensures (λ _ w'. w' ≡ w) r (checked_div a b w)
  unfolding checked_div
  same-checked_div a b = elim (Bool-cases (b == 0)) [
    | inl e ↦ record { holds = rw e tt }
    | inr e ↦ record { holds = rw e refl }
  ]

  pub same-now_secs : (host : Host E) → Ensures (λ _ w'. w' ≡ w) r (now_secs host w)
  unfolding now_secs
  same-now_secs host = elim (Bool-cases (ltb (from_be_slice (host.now w.rest)) (2 ^ 32))) [
    | inl e ↦ record { holds = rw e refl }
    | inr e ↦ record { holds = rw e tt }
  ]

module _ {E : Type 0} (q : ℕ → World E → Type 0) (r : Bytes → World E → Type 0) where
  one_write :
      (f : Storage → Storage) (x : ℕ) (w : World E)
      → q x (record w { storage = f w.storage })
      → Ensures q r ((modify f >> pure x) w)
  unfolding ◌>>=◌
  one_write f x w h = record { holds = h }

  two_writes :
      (f g : Storage → Storage) (x : ℕ) (w : World E)
      → q x (record w { storage = g (f w.storage) })
      → Ensures q r ((modify f >> (modify g >> pure x)) w)
  unfolding ◌>>=◌
  two_writes f g x w h = record { holds = h }

module _ {E : Type 0} (abi : Decoders) (host : Host E) (ideal : NoCollision host.hash_keccak_256)
    (to : Bytes) (address : IsAddress to) (r : Bytes → World E → Type 0) where
  open host use {hash_keccak_256}

  -- What holds once the shares are computed.
  abbrev pub Shared : Storage → ℕ → World E → Type 0
  Shared before liquidity w =
      (storage_get_u256 slot_total_supply w.storage
        ≡ supply_after (storage_get_u256 slot_total_supply before) liquidity % 2 ^ 256)
      × (get_balance hash_keccak_256 to w.storage
          ≡ held_before to (storage_get_u256 slot_total_supply before)
              (get_balance hash_keccak_256 to before))

  pub Ensures-first :
      (a0 a1 : ℕ) (w : World E)
      → storage_get_u256 slot_total_supply w.storage ≡ 0
      → Ensures (Shared w.storage) r (first_liquidity abi host a0 a1 0 w)
  unfolding first_liquidity
  Ensures-first a0 a1 w e =
      let q = Shared w.storage in
      Ensures-bind q r _ _ _ w (same-unwrap r w _) λ liq w1 e1.
        Ensures-bind q r _ _ _ w1 (Ensures-unlock_and_revert_if r w1 _) λ _ w2 e2.
          let same : w2.storage ≡ w.storage = ap (λ (v : World E). v.storage) (e2.1 ∙ e1) in
          let st = storage_set_u256 slot_total_supply 1000 w2.storage in
          two_writes q r _ _ _ w2 (
            rw e (
                slot-set_balance hash_keccak_256 ideal slot_total_supply (zeros 20) 1000 st
                ∙ storage_get_u256-storage_set_u256 slot_total_supply slot_total_supply 1000
                    w2.storage (omega arith) (omega arith)),
            rw e (
                get_balance-set_balance hash_keccak_256 ideal to (zeros 20) address refl 1000 st
                ∙ ap (λ v. if bytes_eq (zeros 20) to then 1000 else v)
                    (get_balance-set_slot hash_keccak_256 ideal slot_total_supply to 1000 w2.storage
                      ∙ ap (get_balance hash_keccak_256 to) same)),
          )

  pub Ensures-later :
      (a0 a1 r0 r1 t : ℕ) (w : World E)
      → storage_get_u256 slot_total_supply w.storage ≡ t
      → (t == 0) ≡ false
      → Ensures (Shared w.storage) r (later_liquidity abi host a0 a1 r0 r1 t w)
  unfolding later_liquidity
  Ensures-later a0 a1 r0 r1 t w e ne =
      let q = Shared w.storage in
      Ensures-bind q r _ _ _ w (same-checked_div r w _ r0) λ l0 w1 e1.
        Ensures-bind q r _ _ _ w1 (same-checked_div r w1 _ r1) λ l1 w2 e2.
          Ensures-bind q r _ _ _ w2 (Ensures-unlock_and_revert_if r w2 _) λ _ w3 e3.
            let same : w3.storage ≡ w.storage = ap (λ (v : World E). v.storage) (e3.1 ∙ e2 ∙ e1) in
            let liq = if ltb l0 l1 then l0 else l1 in
            one_write q r _ _ w3 (
              rw (e, ne)
                  (storage_get_u256-storage_set_u256 slot_total_supply slot_total_supply
                    (add256 t liq) w3.storage (omega arith) (omega arith)),
              rw (e, ne)
                  (get_balance-set_slot hash_keccak_256 ideal slot_total_supply to (add256 t liq)
                      w3.storage
                    ∙ ap (get_balance hash_keccak_256 to) same),
            )
