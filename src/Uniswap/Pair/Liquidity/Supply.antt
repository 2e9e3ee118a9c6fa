-- ===== src/Uniswap/Pair/Liquidity/Supply.antt =====
-- What a mint does to the total supply and to the balance of the one it mints for.
use risc_v_rust.Base.{
  ℕ, ap, ◌%◌, ◌^◌, ◌≡◌, ◌∙◌, refl, sym, Bool-cases, inl, inr, arith, some, ◌==◌, if◌then◌else◌,
}
use risc_v_rust.Base.Bytes.{Bytes, bytes_eq_refl, to_be_bytes}
use risc_v_rust.Base.Word.{add256}
use risc_v_rust.Uniswap.Host.{Storage, World, M, Host, next, returned, gets, modify, ◌>>=◌, ◌>>◌}
use risc_v_rust.Uniswap.Host.Ensures.{
  Ensures, Ensures-bind, Ensures-runs, Ensures-returned, Ensures-gets, Ensures-unwrap_or_revert,
}
use risc_v_rust.Uniswap.Slots.{storage_get_u256, storage_set_u256}
use risc_v_rust.Uniswap.Slots.Keys.{NoCollision}
use risc_v_rust.Uniswap.Slots.Laws.{storage_get_u256-storage_set_u256}
use risc_v_rust.Uniswap.Pair.Abi.{Decoders}
use risc_v_rust.Uniswap.Pair.State.{
  slot_total_supply, slot_unlocked, slot_reserves, get_balance, set_balance, set_reserves,
  get_token0, get_token1, get_reserves,
}
use risc_v_rust.Uniswap.Pair.State.Balances.{
  IsAddress, slot-set_balance, get_balance-set_balance, get_balance-set_slot,
}
use risc_v_rust.Uniswap.Pair.Calls.{safe_balance_of, to_u128, now_secs, set_unlocked, return_u256}
use risc_v_rust.Uniswap.Pair.Calls.Ensures.{Ensures-settle, Ensures-require_unlocked, locked_world}
use risc_v_rust.Uniswap.Pair.Calls.Goes.{pair_goes_on}
use risc_v_rust.Uniswap.Pair.Liquidity.{first_liquidity, later_liquidity, mint}
use risc_v_rust.Uniswap.Pair.Liquidity.Shares.{
  supply_after, held_before, Shared, Ensures-modify, same-to_u128, same-now_secs, Ensures-first,
  Ensures-later,
}

-- How a mint that began in the world `v`, with the lock taken, leaves the pair: each token is asked once for the pair's
-- balance, and the supply and the receiver's balance are then raised from what they are in the world `asked`.
pub record Minted {E : Type 0} (host : Host E) (to d : Bytes) (v w : World E) : Type 0 where
  pub asked0 : World E
  pub asked : World E
  pub b0 : ℕ
  pub b1 : ℕ
  pub liquidity : ℕ
  pub answers0 : safe_balance_of host (get_token0 v.storage) host.address v ≡ (next b0, asked0)
  pub answers1 : safe_balance_of host (get_token1 v.storage) host.address asked0 ≡ (next b1, asked)
  pub reply : d ≡ to_be_bytes 32 liquidity
  pub supply :
      storage_get_u256 slot_total_supply w.storage
      ≡ supply_after (storage_get_u256 slot_total_supply asked.storage) liquidity % 2 ^ 256
  pub credited :
      get_balance host.hash_keccak_256 to w.storage
      ≡ add256
          (held_before to
            (storage_get_u256 slot_total_supply asked.storage)
            (get_balance host.hash_keccak_256 to asked.storage))
          liquidity

-- The last writes of a mint leave the supply and the balances alone.
module _ (hash : Bytes → Bytes) (ideal : NoCollision hash) (to : Bytes)
    (address : IsAddress to) where
  settled_supply :
      (r0 r1 ts v : ℕ) (st : Storage)
      → storage_get_u256 slot_total_supply
          (storage_set_u256 slot_unlocked 1 (set_reserves r0 r1 ts (set_balance hash to v st)))
        ≡ storage_get_u256 slot_total_supply st
  unfolding set_reserves
  settled_supply r0 r1 ts v st =
      storage_get_u256-storage_set_u256 slot_total_supply slot_unlocked 1 _ (omega arith)
        (omega arith)
      ∙ storage_get_u256-storage_set_u256 slot_total_supply slot_reserves _ _ (omega arith)
          (omega arith)
      ∙ slot-set_balance hash ideal slot_total_supply to v st

  settled_balance :
      (r0 r1 ts v : ℕ) (st : Storage)
      → get_balance hash to
          (storage_set_u256 slot_unlocked 1 (set_reserves r0 r1 ts (set_balance hash to v st)))
        ≡ v % 2 ^ 256
  unfolding set_reserves
  settled_balance r0 r1 ts v st =
      get_balance-set_slot hash ideal slot_unlocked to 1 _
      ∙ get_balance-set_slot hash ideal slot_reserves to _ _
      ∙ get_balance-set_balance hash ideal to to address address v st
      ∙ rw (bytes_eq_refl to)

module _ {E : Type 0} (abi : Decoders) (host : Host E) (ideal : NoCollision host.hash_keccak_256)
    (w : World E) (call_data to : Bytes) (decoded : abi.mint call_data ≡ some to)
    (address : IsAddress to) where
  open host use {hash_keccak_256}

  abbrev Goal : Bytes → World E → Type 0
  Goal d w' = Minted host to d (locked_world w) w'

  abbrev Any : Unit {0} → World E → Type 0
  Any _ _ = Unit {0}

  -- The end of a mint, from the computation of the shares on.
  abbrev minting : ℕ → ℕ → ℕ → ℕ → ℕ → ℕ → ℕ → M E (Unit {0})
  minting a0 a1 reserve0 reserve1 balance0 balance1 total = do
    liquidity ←
        if total == 0
        then first_liquidity abi host a0 a1 total
        else later_liquidity abi host a0 a1 reserve0 reserve1 total
    held ← gets (get_balance hash_keccak_256 to)
    modify (set_balance hash_keccak_256 to (add256 held liquidity))
    r0 ← to_u128 balance0
    r1 ← to_u128 balance1
    ts ← now_secs host
    modify (set_reserves r0 r1 ts)
    set_unlocked
    return_u256 liquidity

  shares-Ensures :
      (a0 a1 r0 r1 t : ℕ) (w1 : World E)
      → t ≡ storage_get_u256 slot_total_supply w1.storage
      → Ensures (Shared abi host ideal to address Goal w1.storage) Goal (
          (if t == 0
              then first_liquidity abi host a0 a1 t
              else later_liquidity abi host a0 a1 r0 r1 t)
            w1)
  shares-Ensures a0 a1 r0 r1 t w1 e = elim (Bool-cases (t == 0)) [
    | inl z ↦
        let none_yet : t ≡ 0 = ground (arith, z) in
        rw z
          (rw none_yet (Ensures-first abi host ideal to address Goal a0 a1 w1 (sym e ∙ none_yet)))
    | inr p ↦ rw p (Ensures-later abi host ideal to address Goal a0 a1 r0 r1 t w1 (sym e) p)
  ]

  -- From the computation of the shares on, where the tokens have been asked.
  minting-Ensures :
      (asked0 asked : World E) (b0 b1 a0 a1 r0 r1 t : ℕ)
      → safe_balance_of host (get_token0 (locked_world w).storage) host.address (locked_world w)
        ≡ (next b0, asked0)
      → safe_balance_of host (get_token1 (locked_world w).storage) host.address asked0
        ≡ (next b1, asked)
      → t ≡ storage_get_u256 slot_total_supply asked.storage
      → Ensures Any Goal (minting a0 a1 r0 r1 b0 b1 t asked)
  minting-Ensures asked0 asked b0 b1 a0 a1 r0 r1 t answers0 answers1 e8 =
      Ensures-bind Any Goal _ _ _ asked (shares-Ensures a0 a1 r0 r1 t asked e8) λ liq w9 e9.
        Ensures-bind Any Goal _ _ _ w9 (Ensures-gets Goal w9 (get_balance hash_keccak_256 to))
          λ held w10 e10. Ensures-bind Any Goal _ _ _ w10 (Ensures-modify Goal w10 _) λ _ w11 e11.
            Ensures-bind Any Goal _ _ _ w11 (same-to_u128 Goal w11 b0) λ x0 w12 e12.
              Ensures-bind Any Goal _ _ _ w12 (same-to_u128 Goal w12 b1) λ x1 w13 e13.
                Ensures-bind Any Goal _ _ _ w13 (same-now_secs Goal w13 host) λ ts w14 e14.
                  rw (e14 ∙ e13 ∙ e12 ∙ e11) (
                    Ensures-settle Goal _ (set_reserves x0 x1 ts) (to_be_bytes 32 liq) (record {
                      asked0 = asked0;
                      asked = asked;
                      b0 = b0;
                      b1 = b1;
                      liquidity = liq;
                      answers0 = answers0;
                      answers1 = answers1;
                      reply = refl;
                      supply =
                          settled_supply hash_keccak_256 ideal to address x0 x1 ts _ w10.storage
                          ∙ rw (e10.1) (e9.0);
                      credited =
                          settled_balance hash_keccak_256 ideal to address x0 x1 ts _ w10.storage
                          ∙ rw (e10.0 ∙ e9.1) (omega arith);
                    }))

  mint-Ensures : Ensures Any Goal (mint abi host call_data w)
  unfolding mint
  mint-Ensures = Ensures-bind Any Goal _ _ _ w (Ensures-require_unlocked Goal w) λ _ w1 e1.
      Ensures-bind Any Goal _ _ _ w1 (Ensures-unwrap_or_revert Goal w1 (abi.mint call_data))
        λ a w2 e2.
          let same : a ≡ to = cc (e2.0) in
          rw same (
            Ensures-bind Any Goal _ _ _ w2 (Ensures-gets Goal w2 get_reserves) λ reserves w3 e3.
              Ensures-bind Any Goal _ _ _ w3 (Ensures-gets Goal w3 get_token0) λ t0 w4 e4.
                Ensures-bind Any Goal _ _ _ w4 (Ensures-gets Goal w4 get_token1) λ t1 w5 e5.
                  let at3 : w3 ≡ locked_world w = e3.1 ∙ e2.1 ∙ e1 in
                  let at4 : w4 ≡ locked_world w = e4.1 ∙ at3 in
                  rw
                    (
                      e4.0 ∙ ap (λ (v : World E). get_token0 v.storage) at3,
                      e5.0 ∙ ap (λ (v : World E). get_token1 v.storage) at4,
                      e5.1 ∙ at4,
                    )
                    (Ensures-runs Any Goal _ _ (locked_world w) (search pair_goes_on)
                      λ b0 asked0 answers0.
                        Ensures-runs Any Goal _ _ asked0 (search pair_goes_on) λ b1 asked answers1.
                          Ensures-bind Any Goal _ _ _ asked
                            (Ensures-gets Goal asked (storage_get_u256 slot_total_supply))
                            λ t w8 e8. rw (e8.1) (
                              minting-Ensures asked0 asked b0 b1 _ _ reserves.0 reserves.1 t
                                answers0 answers1 (e8.0))))

  -- Where hashes do not collide and the receiver's address has twenty bytes: a mint that returns has asked both tokens for
  -- the pair's balance; from what is stored then, it replies with some liquidity and adds it to the receiver's
  -- balance, to which the first mint has added the locked minimum if the receiver is the zero address. A supply
  -- that is not zero grows by the liquidity, and a supply of zero becomes the locked minimum, whatever the liquidity is.
  pub mint-Minted :
      {d : Bytes}
      → (mint abi host call_data w).0 ≡ returned d
      → Minted host to d (locked_world w) (mint abi host call_data w).1
  mint-Minted e = let (d, same, h) = Ensures-returned Any Goal _ mint-Ensures e in rw (← same) h
