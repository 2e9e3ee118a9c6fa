-- ===== src/Uniswap/Pair/Token/Approves.antt =====
-- `approve` sets one allowance.
use risc_v_rust.Base.{ℕ, ◌%◌, ◌^◌, ◌<◌, ◌≡◌, refl, some, arith, ◌&&◌, if◌then◌else◌}
use risc_v_rust.Base.Bytes.{Bytes, bytes_eq, to_be_bytes}
use risc_v_rust.Uniswap.Host.{World, Host, returned, ◌>>=◌}
use risc_v_rust.Uniswap.Slots.Keys.{NoCollision}
use risc_v_rust.Uniswap.Pair.Abi.{Decoders}
use risc_v_rust.Uniswap.Pair.State.{get_balance, get_allowance, set_allowance}
use risc_v_rust.Uniswap.Pair.State.Balances.{
  IsAddress, get_balance-set_allowance, get_allowance-set_allowance,
}
use risc_v_rust.Uniswap.Pair.Token.{approve}

module _ {E : Type 0} (abi : Decoders) (host : Host E) (w : World E) where
  open host use {hash_keccak_256, caller}

  approve-eq :
      (call_data spender : Bytes) (value : ℕ)
      → abi.approve call_data ≡ some (spender, value)
      → approve abi host call_data w ≡ (
        returned (to_be_bytes 32 1),
        record w { storage = set_allowance hash_keccak_256 caller spender value w.storage },
      )
  unfolding approve ◌>>=◌
  approve-eq call_data spender value e = ground arith

  -- Where hashes do not collide, the accounts have addresses of twenty bytes and the value is a 256-bit
  -- number: approve returns true, sets the one allowance that the caller gives to the spender, and leaves
  -- every other allowance and every balance as it was.
  pub approve-sets :
      NoCollision hash_keccak_256
      → (call_data spender : Bytes) (value : ℕ) → abi.approve call_data ≡ some (spender, value)
      → value < 2 ^ 256
      → IsAddress caller
      → IsAddress spender
      → (x y : Bytes) → IsAddress x
      → IsAddress y
      → let (r, w') = approve abi host call_data w in
        (r ≡ returned (to_be_bytes 32 1))
        × (get_allowance hash_keccak_256 x y w'.storage ≡ (
            if bytes_eq caller x && bytes_eq spender y
            then value
            else get_allowance hash_keccak_256 x y w.storage))
        × (get_balance hash_keccak_256 x w'.storage ≡ get_balance hash_keccak_256 x w.storage)
  approve-sets ideal call_data spender value e word hc hs x y hx hy =
      let fits : value % 2 ^ 256 ≡ value = omega arith in
      rw (approve-eq call_data spender value e) (
        refl,
        ground (
          arith,
          fits,
          get_allowance-set_allowance hash_keccak_256 ideal x y caller spender value w.storage hx hy
              hc hs,
        ),
        get_balance-set_allowance hash_keccak_256 ideal x caller hx hc spender value w.storage,
      )
