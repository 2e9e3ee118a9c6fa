-- ===== src/Uniswap/Pair/Calls/Keeps.antt =====
-- What the shared steps of the pair keep.
use risc_v_rust.Base.{ℕ, ◌^◌, Bool, ltb}
use risc_v_rust.Base.Bytes.{Bytes, from_be_slice}
use risc_v_rust.Uniswap.Host.{Storage, Host}
use risc_v_rust.Uniswap.Host.Keeps.{Keeps, Keeps-test, CalleesKeep, keeps_rules}
use risc_v_rust.Uniswap.Slots.{storage_set_u256}
use risc_v_rust.Uniswap.Pair.State.{slot_unlocked}
use risc_v_rust.Uniswap.Pair.Calls.{
  require_unlocked, set_unlocked, unlock_and_revert_if, safe_transfer, safe_balance_of, now_secs,
  to_u128,
}

-- The shared steps of the pair keep what the lock and the calls of the tokens keep.
module _ {E : Type 0} (P : Storage → Type 0)
    (frees : (v : ℕ) (st : Storage) → P st → P (storage_set_u256 slot_unlocked v st)) where
  pub Keeps-require_unlocked : Keeps P (require_unlocked {E = E})
  unfolding require_unlocked
  Keeps-require_unlocked = search (keeps_rules, frees) depth 20

  pub Keeps-set_unlocked : Keeps P (set_unlocked {E = E})
  unfolding set_unlocked
  Keeps-set_unlocked = search (keeps_rules, frees) depth 20

  pub Keeps-unlock_and_revert_if : (t : Bool) → Keeps P (unlock_and_revert_if {E = E} t)
  unfolding unlock_and_revert_if
  Keeps-unlock_and_revert_if t = search (keeps_rules, Keeps-set_unlocked) depth 20

module _ {E : Type 0} (P : Storage → Type 0) (host : Host E) (callees : CalleesKeep P host) where
  pub Keeps-safe_transfer : (token to : Bytes) (v : ℕ) → Keeps P (safe_transfer host token to v)
  unfolding safe_transfer
  Keeps-safe_transfer token to v = search (keeps_rules, callees.call_evm) depth 20

  pub Keeps-safe_balance_of : (token account : Bytes) → Keeps P (safe_balance_of host token account)
  unfolding safe_balance_of
  Keeps-safe_balance_of token account = search (keeps_rules, callees.call_evm) depth 20

module _ {E : Type 0} (P : Storage → Type 0) where
  pub Keeps-to_u128 : (x : ℕ) → Keeps P (to_u128 {E = E} x)
  Keeps-to_u128 x = Keeps-test (λ _. ltb x (2 ^ 128)) (λ _. x)

  pub Keeps-now_secs : (host : Host E) → Keeps P (now_secs host)
  unfolding now_secs
  Keeps-now_secs host =
      Keeps-test (λ w. ltb (from_be_slice (host.now w.rest)) (2 ^ 32))
        (λ w. from_be_slice (host.now w.rest))
