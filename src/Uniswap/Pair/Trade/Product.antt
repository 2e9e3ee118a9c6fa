-- ===== src/Uniswap/Pair/Trade/Product.antt =====
-- A swap does not lower the product of the reserves.
use risc_v_rust.Base.{
  ℕ, ◌==◌, ◌&&◌, ltb, ap, sym, false, refl, [], ◌-◌, ◌*◌, ◌^◌, ◌≤◌, ◌<◌, ◌≡◌, ◌∙◌, some, arith,
}
use risc_v_rust.Base.Word.{mul_mono}
use risc_v_rust.Base.Bytes.{Bytes}
use risc_v_rust.Uniswap.Host.{
  World, M, Host, next, returned, when, modify, return_value, ◌>>=◌, ◌>>◌,
}
use risc_v_rust.Uniswap.Host.Ensures.{
  Ensures, Ensures-bind, Ensures-runs, Ensures-returned, Ensures-gets, Ensures-unwrap_or_revert,
}
use risc_v_rust.Uniswap.Slots.{storage_set_u256}
use risc_v_rust.Uniswap.Pair.Abi.{Decoders}
use risc_v_rust.Uniswap.Pair.Calls.{
  unlock_and_revert_if, to_u128, set_unlocked, safe_transfer, safe_balance_of, now_secs,
}
use risc_v_rust.Uniswap.Pair.State.{
  slot_unlocked, get_token0, get_token1, get_reserves, set_reserves,
}
use risc_v_rust.Uniswap.Pair.State.Reserves.{get_reserves-lock}
use risc_v_rust.Uniswap.Pair.Calls.Ensures.{
  Ensures-require_unlocked, Ensures-unlock_and_revert_if, Ensures-to_u128, Ensures-settle,
  locked_world,
}
use risc_v_rust.Uniswap.Pair.Calls.Goes.{pair_goes_on}
use risc_v_rust.Uniswap.Pair.Trade.{amount_in, adjusted, product_falls, swap}

-- What came in is no more than the balance.
pub amount_in-le : (b r out : ℕ) → b < 2 ^ 256 → amount_in b r out ≤ b
unfolding amount_in
amount_in-le b r out h = ground arith

pub adjusted-eq : (b a : ℕ) → b < 2 ^ 128 → a ≤ b → adjusted b a ≡ b * 1000 - a * 3
unfolding adjusted
adjusted-eq b a h k = ground arith

-- The guard passes only if the true product of the adjusted balances has not fallen: the left side
-- can only wrap downwards, and the right side does not wrap.
product_kept :
    (x y r0 r1 : ℕ)
    → r0 < 2 ^ 112
    → r1 < 2 ^ 112
    → product_falls x y r0 r1 ≡ false
    → r0 * r1 * 1000000 ≤ x * y
unfolding product_falls
product_kept x y r0 r1 h0 h1 e =
    let half : r0 * r1 ≤ r0 * 2 ^ 112 = mul_mono r0 r1 (2 ^ 112) (omega arith) in ground arith

pub product_plain : (a b c d : ℕ) → a ≤ c → b ≤ d → a * b ≤ c * d
product_plain a b c d h k = omega (arith, mul_mono a b d k, mul_mono d a c h)

-- How a swap that began in the world `v`, with the lock taken, leaves the pair: the two amounts are paid, each token is asked
-- once for the pair's balance, and the balances are packed as the reserves while the lock is given back. Nothing
-- else is written in between. The product of the balances is at least that of the old reserves, even with the fee of
-- three thousandths of what came in taken off.
pub record Settled {E : Type 0} (host : Host E) (out0 out1 : ℕ) (to : Bytes) (v w : World E)
    : Type 0 where
  pub paid0 : World E
  pub paid : World E
  pub asked0 : World E
  pub asked : World E
  pub b0 : ℕ
  pub b1 : ℕ
  pub now : ℕ
  pub pays0 :
      when (ltb 0 out0) (safe_transfer host (get_token0 v.storage) to out0) v ≡ (next tt, paid0)
  pub pays1 :
      when (ltb 0 out1) (safe_transfer host (get_token1 v.storage) to out1) paid0 ≡ (next tt, paid)
  pub answers0 : safe_balance_of host (get_token0 v.storage) host.address paid ≡ (next b0, asked0)
  pub answers1 : safe_balance_of host (get_token1 v.storage) host.address asked0 ≡ (next b1, asked)
  pub fits0 : b0 < 2 ^ 128
  pub fits1 : b1 < 2 ^ 128
  pub clock : now_secs host asked ≡ (next now, asked)
  pub written : w ≡ record asked {
    storage = storage_set_u256 slot_unlocked 1 (set_reserves b0 b1 now asked.storage);
  }
  pub with_fee :
      (get_reserves v.storage).0 * (get_reserves v.storage).1 * 1000000
      ≤ (b0 * 1000 - amount_in b0 (get_reserves v.storage).0 out0 * 3)
        * (b1 * 1000 - amount_in b1 (get_reserves v.storage).1 out1 * 3)
  pub product : (get_reserves v.storage).0 * (get_reserves v.storage).1 ≤ b0 * b1

module _ (r0 r1 out0 out1 b0 b1 : ℕ) (h0 : r0 < 2 ^ 112) (h1 : r1 < 2 ^ 112) (s0 : b0 < 2 ^ 128)
    (s1 : b1 < 2 ^ 128)
    (kept : product_falls
        (adjusted b0 (amount_in b0 r0 out0))
        (adjusted b1 (amount_in b1 r1 out1))
        r0
        r1
      ≡ false) where
  fee_product :
      r0 * r1 * 1000000
      ≤ (b0 * 1000 - amount_in b0 r0 out0 * 3) * (b1 * 1000 - amount_in b1 r1 out1 * 3)
  fee_product =
      rw
        (
          ← adjusted-eq b0 (amount_in b0 r0 out0) s0 (amount_in-le b0 r0 out0 (omega arith)),
          ← adjusted-eq b1 (amount_in b1 r1 out1) s1 (amount_in-le b1 r1 out1 (omega arith)),
        )
        (product_kept _ _ r0 r1 h0 h1 kept)

  plain_product : r0 * r1 ≤ b0 * b1
  plain_product = omega (
    arith,
    fee_product,
    product_plain (b0 * 1000 - amount_in b0 r0 out0 * 3) (b1 * 1000 - amount_in b1 r1 out1 * 3)
        (b0 * 1000) (b1 * 1000) (omega arith) (omega arith),
  )

module _ {E : Type 0} (abi : Decoders) (host : Host E) (w : World E) (call_data : Bytes)
    (out0 out1 : ℕ) (to extra : Bytes) (decoded : abi.swap call_data ≡ some (out0, out1, to, extra))
    (h0 : (get_reserves w.storage).0 < 2 ^ 112) (h1 : (get_reserves w.storage).1 < 2 ^ 112) where
  abbrev Goal : Bytes → World E → Type 0
  Goal _ w' = Settled host out0 out1 to (locked_world w) w'

  abbrev Any : Unit {0} → World E → Type 0
  Any _ _ = Unit {0}

  reserves_read : get_reserves (locked_world w).storage ≡ get_reserves w.storage
  reserves_read = get_reserves-lock 0 w.storage

  now_secs-world : (v v' : World E) (t : ℕ) → now_secs host v ≡ (next t, v') → v' ≡ v
  unfolding now_secs
  now_secs-world v v' t e = sym (ap (λ o. o.1) e)

  fits : (v : ℕ × ℕ × ℕ) → v ≡ get_reserves w.storage → (v.0 < 2 ^ 112) × (v.1 < 2 ^ 112)
  fits v e = rw e (h0, h1)

  abbrev v0 : World E
  v0 = locked_world w

  abbrev r0 : ℕ
  r0 = (get_reserves v0.storage).0

  abbrev r1 : ℕ
  r1 = (get_reserves v0.storage).1

  -- From the payments on.
  abbrev paying : M E (Unit {0})
  paying = do
    when (ltb 0 out0) (safe_transfer host (get_token0 v0.storage) to out0)
    when (ltb 0 out1) (safe_transfer host (get_token1 v0.storage) to out1)
    balance0 ← safe_balance_of host (get_token0 v0.storage) host.address
    balance1 ← safe_balance_of host (get_token1 v0.storage) host.address
    unlock_and_revert_if (amount_in balance0 r0 out0 == 0 && amount_in balance1 r1 out1 == 0)
    unlock_and_revert_if (
        product_falls (adjusted balance0 (amount_in balance0 r0 out0))
          (adjusted balance1 (amount_in balance1 r1 out1)) r0 r1)
    x0 ← to_u128 balance0
    x1 ← to_u128 balance1
    ts ← now_secs host
    modify (set_reserves x0 x1 ts)
    set_unlocked
    return_value []

  paying-Ensures : Ensures Any Goal (paying v0)
  paying-Ensures = Ensures-runs Any Goal _ _ v0 (search pair_goes_on) λ _ p0 pays0.
      Ensures-runs Any Goal _ _ p0 (search pair_goes_on) λ _ p1 pays1.
        Ensures-runs Any Goal _ _ p1 (search pair_goes_on) λ b0 q0 answers0.
          Ensures-runs Any Goal _ _ q0 (search pair_goes_on) λ b1 q1 answers1.
            Ensures-bind Any Goal _ _ _ q1 (Ensures-unlock_and_revert_if Goal q1 _) λ _ q2 some_in.
              Ensures-bind Any Goal _ _ _ q2 (Ensures-unlock_and_revert_if Goal q2 _) λ _ q3 kept.
                Ensures-bind Any Goal _ _ _ q3 (Ensures-to_u128 Goal q3 b0) λ x0 q4 s0.
                  Ensures-bind Any Goal _ _ _ q4 (Ensures-to_u128 Goal q4 b1) λ x1 q5 s1.
                    rw (s0.0, s1.0, s1.2 ∙ s0.2 ∙ kept.1 ∙ some_in.1)
                      (Ensures-runs Any Goal _ _ q1 (search pair_goes_on) λ now q6 clock.
                        let same = now_secs-world q1 q6 now clock in
                        let (k0, k1) = fits (get_reserves v0.storage) reserves_read in
                        rw same (
                          Ensures-settle Goal q1 (set_reserves b0 b1 now) [] (record {
                            paid0 = p0;
                            paid = p1;
                            asked0 = q0;
                            asked = q1;
                            b0 = b0;
                            b1 = b1;
                            now = now;
                            pays0 = pays0;
                            pays1 = pays1;
                            answers0 = answers0;
                            answers1 = answers1;
                            fits0 = s0.1;
                            fits1 = s1.1;
                            clock = clock ∙ ap (λ v. (next now, v)) same;
                            written = refl;
                            with_fee = fee_product r0 r1 out0 out1 b0 b1 k0 k1 s0.1 s1.1 kept.0;
                            product = plain_product r0 r1 out0 out1 b0 b1 k0 k1 s0.1 s1.1 kept.0;
                          })))

  swap-Ensures : Ensures Any Goal (swap abi host call_data w)
  unfolding swap
  swap-Ensures = Ensures-bind Any Goal _ _ _ w (Ensures-require_unlocked Goal w) λ _ w1 e1.
      Ensures-bind Any Goal _ _ _ w1 (Ensures-unwrap_or_revert Goal w1 (abi.swap call_data))
        λ d w2 e2.
          let same : d ≡ (out0, out1, to, extra) = cc (e2.0) in
          rw same (
            Ensures-bind Any Goal _ _ _ w2 (Ensures-unlock_and_revert_if Goal w2 _) λ _ w3 e3.
              Ensures-bind Any Goal _ _ _ w3 (Ensures-gets Goal w3 get_reserves) λ res w4 e4.
                Ensures-bind Any Goal _ _ _ w4 (Ensures-unlock_and_revert_if Goal w4 _) λ _ w5 e5.
                  Ensures-bind Any Goal _ _ _ w5 (Ensures-gets Goal w5 get_token0) λ t0 w6 e6.
                    Ensures-bind Any Goal _ _ _ w6 (Ensures-gets Goal w6 get_token1) λ t1 w7 e7.
                      Ensures-bind Any Goal _ _ _ w7 (Ensures-unlock_and_revert_if Goal w7 _)
                        λ _ w8 e8.
                          let at4 : w3 ≡ locked_world w = e3.1 ∙ e2.1 ∙ e1 in
                          let at5 : w5 ≡ locked_world w = e5.1 ∙ e4.1 ∙ at4 in
                          let at6 : w6 ≡ locked_world w = e6.1 ∙ at5 in
                          let at8 : w8 ≡ locked_world w = e8.1 ∙ e7.1 ∙ at6 in
                          rw
                            (
                              e6.0 ∙ ap (λ (v : World E). get_token0 v.storage) at5,
                              e7.0 ∙ ap (λ (v : World E). get_token1 v.storage) at6,
                              e4.0 ∙ ap (λ (v : World E). get_reserves v.storage) at4,
                              at8,
                            )
                            paying-Ensures)

  -- A swap that returns has paid both amounts, and writes as the reserves the balances that the tokens then give for
  -- the pair, whose product is at least that of the reserves that were read, even with the fee of three thousandths of what
  -- came in taken off; the pair is left unlocked. It holds for whatever the two tokens do, if the old reserves fit
  -- 112 bits.
  pub swap-Settled :
      {d : Bytes}
      → (swap abi host call_data w).0 ≡ returned d
      → Settled host out0 out1 to (locked_world w) (swap abi host call_data w).1
  swap-Settled e = (Ensures-returned Any Goal _ swap-Ensures e).2
