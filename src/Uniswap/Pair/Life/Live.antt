-- ===== src/Uniswap/Pair/Life/Live.antt =====
-- An unlocked pair serves: with tokens that answer, `sync` does return. The steps that other calls share.
use risc_v_rust.Base.{
  ℕ, ◌+◌, ap, ◌-◌, ◌*◌, ◌%◌, ◌^◌, ◌≤◌, ◌<◌, ◌≡◌, refl, ◌∙◌, Bool, false, Option, some, [], arith,
  ltb, lt→ltb, Bool-cases, inl, inr, if◌then◌else◌,
}
use risc_v_rust.Base.Bytes.{Bytes, codes, from_be_slice, from_be-to_be}
use risc_v_rust.Uniswap.Host.{
  next, returned, Storage, World, Host, gets, pure, modify, return_value, unwrap_or_revert, when,
  ◌>>=◌, ◌>>◌,
}
use risc_v_rust.Uniswap.Host.Ensures.{bind-next}
use risc_v_rust.Uniswap.Pair.State.Balances.{IsAddress}
use risc_v_rust.Uniswap.Pair.Life.Tokens.{Answers, balance_input-eq, transfer_input-eq}
use risc_v_rust.Uniswap.Slots.{storage_set_u256}
use risc_v_rust.Uniswap.Pair.Abi.{Decoders}
use risc_v_rust.Uniswap.Pair.State.{
  slot_unlocked, get_token0, get_token1, get_reserves, set_reserves,
}
use risc_v_rust.Uniswap.Pair.State.Reserves.{
  get_reserves-lock, get_reserves-set_reserves, get_reserves_time,
}
use risc_v_rust.Uniswap.Pair.Calls.{
  require_unlocked, set_unlocked, unlock_and_revert_if, safe_transfer, safe_balance_of, now_secs,
  to_u128,
}
use risc_v_rust.Uniswap.Pair.Calls.Ensures.{locked_world}
use risc_v_rust.Uniswap.Pair.Trade.{adjusted, product_falls, sync}
use risc_v_rust.Uniswap.Pair.Trade.Product.{adjusted-eq, product_plain}
use risc_v_rust.Uniswap.Pair.Lock.{lock}

module _ {E : Type 0} where
  pub require_unlocked-next :
      (w : World E) → lock w ≡ 1 → require_unlocked w ≡ (next tt, locked_world w)
  unfolding require_unlocked ◌>>=◌
  require_unlocked-next w free = ground arith

  pub passes : (b : Bool) (w : World E) → b ≡ false → unlock_and_revert_if b w ≡ (next tt, w)
  unfolding unlock_and_revert_if pure
  passes b w e = rw e

  pub to_u128-next : (x : ℕ) (w : World E) → x < 2 ^ 128 → to_u128 x w ≡ (next x, w)
  to_u128-next x w h = rw (lt→ltb x (2 ^ 128) h)

  pub decodes :
      {A : Type 0} (o : Option A) (a : A) (w : World E)
      → o ≡ some a
      → unwrap_or_revert o w ≡ (next a, w)
  unfolding unwrap_or_revert
  decodes o a w e = rw e

  pub gets-next : {A : Type 0} (f : Storage → A) (w : World E) → gets f w ≡ (next (f w.storage), w)
  unfolding gets
  gets-next f w = refl

  -- The last steps: the reserves are written, the lock is given back, and nothing is replied.
  pub settles :
      (f : Storage → Storage) (w : World E)
      → (modify f >> (set_unlocked >> return_value {A = Unit {0}} [])) w
        ≡ (returned [], record w { storage = storage_set_u256 slot_unlocked 1 (f w.storage) })
  unfolding set_unlocked ◌>>=◌
  settles f w = refl

module _ {E : Type 0} (abi : Decoders) (host : Host E) (tokens : Answers host) where
  open host use {address, hash_keccak_256}
  open tokens use {balance}

  pub balance-next :
      (token : Bytes) (w : World E) (b : ℕ)
      → balance token address w.rest ≡ b
      → b < 2 ^ 128
      → safe_balance_of host token address w ≡ (next b, w)
  unfolding safe_balance_of pure unwrap_or_revert ◌>>=◌
  balance-next token w b e h =
      rw
        (balance_input-eq (hash_keccak_256 (codes "balanceOf(address)")) address (tokens.long _)
          tokens.here)
        (rw (tokens.asked token address w tokens.here)
          (rw (from_be-to_be (balance token address w.rest), e) λ i. (next (fits i), w)))
    where
      fits : b % 2 ^ 256 ≡ b
      fits = omega arith

  sync_stored :
      (w : World E) (b0 b1 : ℕ)
      → lock w ≡ 1
      → balance (get_token0 (locked_world w).storage) address w.rest ≡ b0
      → balance (get_token1 (locked_world w).storage) address w.rest ≡ b1
      → b0 < 2 ^ 128
      → b1 < 2 ^ 128
      → let st = (locked_world w).storage in
        sync abi host w ≡ (
          returned [],
          record w {
            storage = storage_set_u256 slot_unlocked 1 (set_reserves b0 b1 (get_reserves st).2 st);
          },
        )
  unfolding sync
  sync_stored w b0 b1 free e0 e1 h0 h1 =
      let w1 = locked_world w in
      bind-next _ _ w (require_unlocked-next w free)
      ∙ bind-next _ _ w1 (gets-next get_token0 w1)
      ∙ bind-next _ _ w1 (gets-next get_token1 w1)
      ∙ bind-next _ _ w1 (balance-next _ w1 b0 e0 h0)
      ∙ bind-next _ _ w1 (balance-next _ w1 b1 e1 h1)
      ∙ bind-next _ _ w1 (gets-next get_reserves w1)
      ∙ bind-next _ _ w1 (to_u128-next b0 w1 h0)
      ∙ bind-next _ _ w1 (to_u128-next b1 w1 h1)
      ∙ settles (set_reserves b0 b1 (get_reserves w1.storage).2) w1

  -- A pair that is unlocked serves `sync`: where its tokens answer, with a first balance below 2 ^ 128 and a second
  -- below 2 ^ 112, it returns, and stores the balances with the old time. The reserves that are read then
  -- are the first balance cut to 112 bits, the second with the low 16 bits of the first above it, and the old time.
  pub sync-returns :
      (w : World E) (b0 b1 : ℕ)
      → lock w ≡ 1
      → balance (get_token0 (locked_world w).storage) address w.rest ≡ b0
      → balance (get_token1 (locked_world w).storage) address w.rest ≡ b1
      → b0 < 2 ^ 128
      → b1 < 2 ^ 112
      → let st = (locked_world w).storage in
        let done = storage_set_u256 slot_unlocked 1 (set_reserves b0 b1 (get_reserves st).2 st) in
        (sync abi host w ≡ (returned [], record w { storage = done }))
        × (get_reserves done
            ≡ (b0 % 2 ^ 112, b0 % 2 ^ 16 * 2 ^ 112 + b1, (get_reserves w.storage).2))
  sync-returns w b0 b1 free e0 e1 h0 h1 =
      let st = (locked_world w).storage in
      (
        sync_stored w b0 b1 free e0 e1 h0 (omega arith),
        get_reserves-lock 1 (set_reserves b0 b1 (get_reserves st).2 st)
            ∙ get_reserves-set_reserves b0 b1 (get_reserves st).2 h1 (get_reserves_time st) st
            ∙ ap (λ (r : ℕ × ℕ × ℕ). (b0 % 2 ^ 112, b0 % 2 ^ 16 * 2 ^ 112 + b1, r.2))
                (get_reserves-lock 0 w.storage),
      )

  pub transfers :
      (token to : Bytes) (amount : ℕ) (w : World E)
      → IsAddress to
      → safe_transfer host token to amount w
        ≡ (next tt, record w { rest = tokens.transferred token to amount w.rest })
  unfolding safe_transfer ◌>>=◌
  transfers token to amount w a =
      rw (transfer_input-eq host tokens to amount a) (rw (tokens.paid token to amount w a) refl)

  -- The rest of the chain after the payment of a swap: nothing is paid for an amount of zero.
  abbrev pub after_payment : Bytes → Bytes → ℕ → E → E
  after_payment token to amount e = if ltb 0 amount then tokens.transferred token to amount e else e

  pub pays-next :
      (token to : Bytes) (amount : ℕ) (w : World E)
      → IsAddress to
      → when (ltb 0 amount) (safe_transfer host token to amount) w
        ≡ (next tt, record w { rest = after_payment token to amount w.rest })
  unfolding when
  pays-next token to amount w a = elim (Bool-cases (ltb 0 amount)) [
    | inl e ↦ rw e (transfers token to amount w a)
    | inr e ↦ rw e
  ]

  pub now-next :
      (w : World E) (t : ℕ)
      → from_be_slice (host.now w.rest) ≡ t
      → t < 2 ^ 32
      → now_secs host w ≡ (next t, w)
  unfolding now_secs
  now-next w t e h = rw (e, lt→ltb t (2 ^ 32) h)

-- The last guard of a swap passes if the product has not fallen, the fee of three thousandths taken off.
module _ (r0 r1 b0 b1 in0 in1 : ℕ) where
  pub product_falls-false :
      r0 < 2 ^ 112
      → r1 < 2 ^ 112
      → b0 < 2 ^ 112
      → b1 < 2 ^ 112
      → in0 ≤ b0
      → in1 ≤ b1
      → r0 * r1 * 1000000 ≤ (b0 * 1000 - in0 * 3) * (b1 * 1000 - in1 * 3)
      → product_falls (adjusted b0 in0) (adjusted b1 in1) r0 r1 ≡ false
  unfolding product_falls
  product_falls-false h0 h1 k0 k1 i0 i1 fair =
      let x = b0 * 1000 - in0 * 3 in
      let y = b1 * 1000 - in1 * 3 in
      let small : x * y < 2 ^ 256 =
        omega (arith, product_plain x y (2 ^ 122) (2 ^ 122) (omega arith) (omega arith)) in
      rw (adjusted-eq b0 in0 (omega arith) i0, adjusted-eq b1 in1 (omega arith) i1) (ground arith)
