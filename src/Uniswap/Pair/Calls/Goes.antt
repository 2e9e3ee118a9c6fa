-- ===== src/Uniswap/Pair/Calls/Goes.antt =====
-- The shared steps of the pair never return from the contract by themselves.
use risc_v_rust.Base.{ℕ, ◌^◌, Bool, ltb}
use risc_v_rust.Base.Bytes.{Bytes, from_be_slice}
use risc_v_rust.Uniswap.Host.{Host}
use risc_v_rust.Uniswap.Host.Goes.{GoesOn, GoesOn-test, goes_on}
use risc_v_rust.Uniswap.Pair.Calls.{
  to_u128, require_unlocked, set_unlocked, unlock_and_revert_if, safe_transfer, safe_balance_of,
  now_secs,
}

module _ {E : Type 0} where
  pub GoesOn-to_u128 : (x : ℕ) → GoesOn (to_u128 {E = E} x)
  GoesOn-to_u128 x = GoesOn-test (λ _. ltb x (2 ^ 128)) (λ _. x)

  pub GoesOn-require_unlocked : GoesOn (require_unlocked {E = E})
  unfolding require_unlocked
  GoesOn-require_unlocked = search goes_on

  pub GoesOn-set_unlocked : GoesOn (set_unlocked {E = E})
  unfolding set_unlocked
  GoesOn-set_unlocked = search goes_on

  pub GoesOn-unlock_and_revert_if : (b : Bool) → GoesOn (unlock_and_revert_if {E = E} b)
  unfolding unlock_and_revert_if
  GoesOn-unlock_and_revert_if b = search (goes_on, GoesOn-set_unlocked)

  module _ (host : Host E) where
    pub GoesOn-safe_transfer : (token to : Bytes) (v : ℕ) → GoesOn (safe_transfer host token to v)
    unfolding safe_transfer
    GoesOn-safe_transfer token to v = search goes_on

    pub GoesOn-safe_balance_of :
        (token account : Bytes) → GoesOn (safe_balance_of host token account)
    unfolding safe_balance_of
    GoesOn-safe_balance_of token account = search goes_on

    pub GoesOn-now_secs : GoesOn (now_secs host)
    unfolding now_secs
    GoesOn-now_secs =
        GoesOn-test (λ w. ltb (from_be_slice (host.now w.rest)) (2 ^ 32))
          (λ w. from_be_slice (host.now w.rest))

pub ruleset pair_goes_on = (
  goes_on, GoesOn-to_u128, GoesOn-require_unlocked, GoesOn-set_unlocked,
  GoesOn-unlock_and_revert_if, GoesOn-safe_transfer, GoesOn-safe_balance_of, GoesOn-now_secs,
)
