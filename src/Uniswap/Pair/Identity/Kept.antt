-- ===== src/Uniswap/Pair/Identity/Kept.antt =====
-- Every function keeps the pair's factory, and its tokens once they are set.
use risc_v_rust.Base.{ℕ, ◌≡◌, ◌≢◌, ◌==◌, not, arith, Bool, true}
use risc_v_rust.Base.Bytes.{Bytes}
use risc_v_rust.Uniswap.Host.{Storage, M, Host, gets, ◌>>=◌, ◌>>◌}
use risc_v_rust.Uniswap.Host.Keeps.{
  Keeps, Keeps-bind, Keeps-unwrap_or_revert, CalleesKeep, keeps_rules,
}
use risc_v_rust.Uniswap.Slots.{storage_get_u256, storage_set_u256}
use risc_v_rust.Uniswap.Slots.Keys.{NoCollision}
use risc_v_rust.Uniswap.Pair.Abi.{Selectors, Decoders}
use risc_v_rust.Uniswap.Pair.State.{
  slot_total_supply, slot_token0, set_reserves, set_balance, set_allowance,
}
use risc_v_rust.Uniswap.Pair.Calls.{
  require_unlocked, set_unlocked, unlock_and_revert_if, safe_transfer, safe_balance_of, to_u128,
  now_secs,
}
use risc_v_rust.Uniswap.Pair.Calls.Keeps.{
  Keeps-require_unlocked, Keeps-set_unlocked, Keeps-unlock_and_revert_if, Keeps-safe_transfer,
  Keeps-safe_balance_of, Keeps-to_u128, Keeps-now_secs,
}
use risc_v_rust.Uniswap.Pair.Identity.{
  Identity, Identity-unlocked, Identity-total_supply, Identity-set_reserves, Identity-set_balance,
  Identity-set_allowance,
}
use risc_v_rust.Uniswap.Pair.Liquidity.{initialize, first_liquidity, later_liquidity, mint, burn}
use risc_v_rust.Uniswap.Pair.Trade.{swap, skim, sync}
use risc_v_rust.Uniswap.Pair.Token.{approve, transfer, transfer_from}
use risc_v_rust.Uniswap.Pair.Dispatch.{call_mutating, call_selected, call}

module _ {E : Type 0} (sel : Selectors) (abi : Decoders) (host : Host E)
    (ideal : NoCollision host.hash_keccak_256) (f a b : ℕ) (set : a ≢ 0)
    (callees : CalleesKeep (Identity f a b) host) where
  open host use {hash_keccak_256}

  abbrev P : Storage → Type 0
  P = Identity f a b

  supply-P : (v : ℕ) (st : Storage) → P st → P (storage_set_u256 slot_total_supply v st)
  supply-P = Identity-total_supply f a b

  reserves-P : (r0 r1 ts : ℕ) (st : Storage) → P st → P (set_reserves r0 r1 ts st)
  reserves-P = Identity-set_reserves f a b

  balance-P : (who : Bytes) (v : ℕ) (st : Storage) → P st → P (set_balance hash_keccak_256 who v st)
  balance-P = Identity-set_balance f a b hash_keccak_256 ideal

  allowance-P :
      (who to : Bytes) (v : ℕ) (st : Storage) → P st → P (set_allowance hash_keccak_256 who to v st)
  allowance-P = Identity-set_allowance f a b hash_keccak_256 ideal

  locking : Keeps P (require_unlocked {E = E})
  locking = Keeps-require_unlocked P (Identity-unlocked f a b)

  freeing : Keeps P (set_unlocked {E = E})
  freeing = Keeps-set_unlocked P (Identity-unlocked f a b)

  guarding : (t : Bool) → Keeps P (unlock_and_revert_if {E = E} t)
  guarding = Keeps-unlock_and_revert_if P (Identity-unlocked f a b)

  paying : (token to : Bytes) (v : ℕ) → Keeps P (safe_transfer host token to v)
  paying = Keeps-safe_transfer P host callees

  asking : (token account : Bytes) → Keeps P (safe_balance_of host token account)
  asking = Keeps-safe_balance_of P host callees

  fitting : (x : ℕ) → Keeps P (to_u128 {E = E} x)
  fitting = Keeps-to_u128 P

  timing : Keeps P (now_secs host)
  timing = Keeps-now_secs P host

  ruleset identity_rules = (
    keeps_rules, supply-P, reserves-P, balance-P, allowance-P, locking, freeing, guarding, paying,
    asking, fitting, timing,
  )

  Keeps-first : (a0 a1 t : ℕ) → Keeps P (first_liquidity abi host a0 a1 t)
  unfolding first_liquidity
  Keeps-first a0 a1 t = search identity_rules depth 40

  Keeps-later : (a0 a1 r0 r1 t : ℕ) → Keeps P (later_liquidity abi host a0 a1 r0 r1 t)
  unfolding later_liquidity
  Keeps-later a0 a1 r0 r1 t = search identity_rules depth 40

  mint-Keeps : (call_data : Bytes) → Keeps P (mint abi host call_data)
  unfolding mint
  mint-Keeps call_data = search (identity_rules, Keeps-first, Keeps-later) depth 80

  burn-Keeps : (call_data : Bytes) → Keeps P (burn abi host call_data)
  unfolding burn
  burn-Keeps call_data = search identity_rules depth 80

  swap-Keeps : (call_data : Bytes) → Keeps P (swap abi host call_data)
  unfolding swap
  swap-Keeps call_data = search identity_rules depth 80

  skim-Keeps : (call_data : Bytes) → Keeps P (skim abi host call_data)
  unfolding skim
  skim-Keeps call_data = search identity_rules depth 80

  sync-Keeps : Keeps P (sync abi host)
  unfolding sync
  sync-Keeps = search identity_rules depth 80

  approve-Keeps : (call_data : Bytes) → Keeps P (approve abi host call_data)
  unfolding approve
  approve-Keeps call_data = search identity_rules depth 40

  transfer-Keeps : (call_data : Bytes) → Keeps P (transfer abi host call_data)
  unfolding transfer
  transfer-Keeps call_data = search identity_rules depth 40

  transfer_from-Keeps : (call_data : Bytes) → Keeps P (transfer_from abi host call_data)
  unfolding transfer_from
  transfer_from-Keeps call_data = search identity_rules depth 40

  -- The guard of `initialize`: what follows it does not run once the tokens are set.
  refusing :
      (rest : M E (Unit {0}))
      → Keeps P (
          gets (storage_get_u256 slot_token0) >>= λ t.
          (unlock_and_revert_if (not (t == 0)) >> rest))
  unfolding ◌>>=◌ unlock_and_revert_if set_unlocked
  refusing rest = record {
    at = λ w h.
        let taken : not (storage_get_u256 slot_token0 w.storage == 0) ≡ true =
          ground (arith, h.1) in
        rw taken tt;
  }

  initialize-Keeps : (call_data : Bytes) → Keeps P (initialize abi host call_data)
  unfolding initialize
  initialize-Keeps call_data =
      Keeps-bind _ _ locking
        λ _. Keeps-bind _ _ (Keeps-unwrap_or_revert (abi.initialize call_data)) λ d. refusing _

  ruleset handlers = (
    mint-Keeps, burn-Keeps, swap-Keeps, skim-Keeps, sync-Keeps, approve-Keeps, transfer-Keeps,
    transfer_from-Keeps, initialize-Keeps,
  )

  call_mutating-Keeps :
      (selector call_data : Bytes) → Keeps P (call_mutating sel abi host selector call_data)
  unfolding call_mutating
  call_mutating-Keeps selector call_data = search (keeps_rules, handlers) depth 40

  call_selected-Keeps :
      (selector call_data : Bytes) → Keeps P (call_selected sel abi host selector call_data)
  unfolding call_selected
  call_selected-Keeps selector call_data = search (keeps_rules, call_mutating-Keeps) depth 60

  pub call-Keeps : (call_data : Bytes) → Keeps P (call sel abi host call_data)
  unfolding call
  call-Keeps call_data = search (keeps_rules, call_selected-Keeps) depth 20
