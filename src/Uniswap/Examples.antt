-- ===== src/Uniswap/Examples.antt =====
-- The theorems about the pair, at concrete inputs.
use risc_v_rust.Base.{
  ℕ, ◌^◌, ◌%◌, ◌<◌, ◌≡◌, ◌↔◌, inr, refl, some, [], ◌∷◌, arith, if◌then◌else◌, ◌==◌, ◌-◌, ◌&&◌, not,
}
use risc_v_rust.Base.Bytes.{bytes_eq, zeros, to_be_bytes, be_from}
use risc_v_rust.Base.Word.{u256_max}
use risc_v_rust.Uniswap.Host.{
  World, returned, reverted, ◌>>=◌, set_storage_or_clear, external, gets, modify, pure,
  return_value, revert, revert_if, unwrap_or_revert, checked_div, when,
}
use risc_v_rust.Uniswap.Math.{sqrt_u256}
use risc_v_rust.Uniswap.Math.Sqrt.{IsRoot, sqrt_u256-IsRoot}
use risc_v_rust.Uniswap.Slots.{
  slot_key, mapping_key_1, mapping_key_2, storage_get_u256, storage_set_u256,
}
use risc_v_rust.Uniswap.Slots.Laws.{storage_get_u256-storage_set_u256}
use risc_v_rust.Uniswap.Pair.State.{
  get_token0, get_token1, get_reserves, set_reserves, set_balance, get_balance, set_allowance,
  get_allowance,
}
use risc_v_rust.Uniswap.Pair.State.Reserves.{reserves_survive_iff}
use risc_v_rust.Uniswap.Pair.Lock.{Guarded, guarded, lock, locked-reverts}
use risc_v_rust.Uniswap.Pair.Lock.Release.{guarded-releases}
use risc_v_rust.Uniswap.Pair.Liquidity.{mint, first_liquidity, later_liquidity}
use risc_v_rust.Uniswap.Pair.Liquidity.Supply.{Minted, mint-Minted}
use risc_v_rust.Uniswap.Pair.Trade.{swap, amount_in, product_falls, adjusted}
use risc_v_rust.Uniswap.Pair.Calls.{
  require_unlocked, unlock_and_revert_if, safe_transfer, safe_balance_of, now_secs, set_unlocked,
}
use risc_v_rust.Uniswap.Pair.Calls.Ensures.{locked_world}
use risc_v_rust.Uniswap.Pair.Trade.Product.{Settled, swap-Settled}
use risc_v_rust.Uniswap.Pair.Token.{approve, transfer, transfer_from}
use risc_v_rust.Uniswap.Pair.Token.Approves.{approve-sets}
use risc_v_rust.Uniswap.Pair.Token.Ledger.{sum, times, moved}
use risc_v_rust.Uniswap.Pair.Token.Moves.{balances, transfer_short, transfer-moves}
use risc_v_rust.Uniswap.Pair.Token.Spends.{transfer_from_short, transfer_from-moves}
use risc_v_rust.Uniswap.Sample.{
  hash, hash-NoCollision, alice, bob, host, decoders, unlocked, locked,
}

sqrt_u256-IsRoot_example : (r : ℕ) × (sqrt_u256 (2 ^ 255) ≡ some r) × IsRoot (2 ^ 255) r
sqrt_u256-IsRoot_example = sqrt_u256-IsRoot (2 ^ 255) (omega arith)

storage_get_u256-storage_set_u256_example :
    storage_get_u256 8 (storage_set_u256 7 1 (λ _. zeros 32))
    ≡ (if 7 == 8 then 1 % 2 ^ 256 else storage_get_u256 8 (λ _. zeros 32))
storage_get_u256-storage_set_u256_example =
    storage_get_u256-storage_set_u256 8 7 1 (λ _. zeros 32) (omega arith) (omega arith)

reserves_survive_iff_example :
    (get_reserves (set_reserves 65536 7 9 (λ _. zeros 32)) ≡ (65536, 7, 9))
    ↔ ((65536 < 2 ^ 112) × (65536 % 2 ^ 16 ≡ 0))
reserves_survive_iff_example =
    reserves_survive_iff 65536 7 9 (λ _. zeros 32) (omega arith) (omega arith)

locked-reverts_example : guarded (decoders 5) host Guarded.burn [] locked ≡ (reverted, locked)
unfolding storage_get_u256 be_from
locked-reverts_example = locked-reverts locked (omega arith) (decoders 5) host Guarded.burn []

-- The swap of 100 returns nothing, and the pair is unlocked.
swap_returns : (swap (decoders 100) host [] unlocked).0 ≡ returned []
unfolding swap ◌>>=◌ storage_get_u256 be_from require_unlocked bytes_eq slot_key to_be_bytes
    unlock_and_revert_if get_reserves storage_set_u256 set_storage_or_clear get_token0 get_token1
    safe_transfer safe_balance_of amount_in product_falls adjusted now_secs set_unlocked external
    gets modify pure return_value revert revert_if unwrap_or_revert when set_reserves
swap_returns = refl

guarded_returns : (guarded (decoders 100) host Guarded.swap [] unlocked).0 ≡ returned []
unfolding guarded
guarded_returns = swap_returns

guarded-releases_example : lock (guarded (decoders 100) host Guarded.swap [] unlocked).1 ≡ 1
guarded-releases_example =
    guarded-releases (decoders 100) host [] Guarded.swap unlocked guarded_returns

swap-Settled_example :
    Settled host 100 0 bob (locked_world unlocked) (swap (decoders 100) host [] unlocked).1
unfolding get_reserves storage_get_u256 be_from bytes_eq slot_key to_be_bytes
swap-Settled_example =
    swap-Settled (decoders 100) host unlocked [] 100 0 bob [] refl (omega arith) (omega arith)
      swap_returns

transfer_short_example : transfer (decoders 5) host [] locked ≡ (reverted, locked)
unfolding get_balance be_from
transfer_short_example = transfer_short (decoders 5) host [] bob 5 locked refl (omega arith)

transfer_from_short_example : transfer_from (decoders 5) host [] locked ≡ (reverted, locked)
unfolding get_balance be_from
transfer_from_short_example =
    transfer_from_short (decoders 5) host locked [] alice bob 5 refl (inr (omega arith))

-- Alice has 40 and lets herself spend 9 of it, bob has nothing.
abbrev funded : World (Unit {0})
funded = record {
  storage = set_allowance hash alice alice 9 (set_balance hash alice 40 (λ _. zeros 32));
  rest = tt;
}

alice_has : get_balance hash alice (funded.storage) ≡ 40
unfolding get_balance set_balance set_allowance set_storage_or_clear mapping_key_1 mapping_key_2
    bytes_eq be_from to_be_bytes
alice_has = refl

bob_has : get_balance hash bob (funded.storage) ≡ 0
unfolding get_balance set_balance set_allowance set_storage_or_clear mapping_key_1 mapping_key_2
    bytes_eq be_from to_be_bytes
bob_has = refl

alice_may : get_allowance hash alice alice (funded.storage) ≡ 9
unfolding get_allowance set_allowance set_storage_or_clear mapping_key_2 bytes_eq be_from
    to_be_bytes
alice_may = refl

sum_is : sum (balances hash (funded.storage)) (alice ∷ bob ∷ []) ≡ 40
unfolding sum
sum_is = omega (arith, alice_has, bob_has)

transfer-moves_example :
    let (r, w') = transfer (decoders 5) host [] funded in
    (r ≡ returned (to_be_bytes 32 1))
    × (balances hash w'.storage bob ≡ moved alice bob 5 (balances hash (funded.storage)) bob)
    × (sum (balances hash w'.storage) (alice ∷ bob ∷ [])
        ≡ sum (balances hash (funded.storage)) (alice ∷ bob ∷ []))
unfolding times bytes_eq
transfer-moves_example =
    transfer-moves (decoders 5) host hash-NoCollision funded [] bob 5 (alice ∷ bob ∷ []) refl refl
      refl (refl, (refl, tt)) refl refl (rw sum_is (omega arith)) (rw alice_has (omega arith)) bob
      refl

transfer_from-moves_example :
    let (r, w') = transfer_from (decoders 5) host [] funded in
    (r ≡ returned (to_be_bytes 32 1))
    × (balances hash w'.storage bob ≡ moved alice bob 5 (balances hash (funded.storage)) bob)
    × (sum (balances hash w'.storage) (alice ∷ bob ∷ [])
        ≡ sum (balances hash (funded.storage)) (alice ∷ bob ∷ []))
    × (get_allowance hash alice alice w'.storage ≡ (
        if not (get_allowance hash alice alice (funded.storage) == u256_max)
          && (bytes_eq alice alice && bytes_eq alice alice)
        then get_allowance hash alice alice (funded.storage) - 5
        else get_allowance hash alice alice (funded.storage)))
unfolding times bytes_eq
transfer_from-moves_example =
    transfer_from-moves (decoders 5) host funded hash-NoCollision alice refl refl [] bob 5
      (alice ∷ bob ∷ []) refl refl (refl, (refl, tt)) refl refl (rw sum_is (omega arith))
      (rw alice_has (omega arith)) (rw alice_may (omega arith)) (rw alice_may (omega arith)) bob
      refl alice alice refl refl

-- Slot 8, the supply, is 0 in the world `unlocked`; here it is 65536.
abbrev supplied : World (Unit {0})
supplied = record { storage = storage_set_u256 8 65536 (unlocked.storage); rest = tt }

mint_returns : (mint (decoders 0) host [] supplied).0 ≡ returned (to_be_bytes 32 4464)
unfolding mint ◌>>=◌ storage_get_u256 be_from require_unlocked bytes_eq slot_key to_be_bytes
    unlock_and_revert_if get_reserves storage_set_u256 set_storage_or_clear get_token0 get_token1
    safe_balance_of first_liquidity later_liquidity now_secs set_unlocked external gets modify pure
    return_value revert revert_if unwrap_or_revert checked_div set_reserves get_balance set_balance
    mapping_key_1
mint_returns = refl

mint-Minted_example :
    Minted host alice
      (to_be_bytes 32 4464)
      (locked_world supplied)
      (mint (decoders 0) host [] supplied).1
mint-Minted_example =
    mint-Minted (decoders 0) host hash-NoCollision supplied [] alice refl refl mint_returns

approve-sets_example :
    let (r, w') = approve (decoders 5) host [] funded in
    (r ≡ returned (to_be_bytes 32 1))
    × (get_allowance hash alice bob w'.storage ≡ (
        if bytes_eq alice alice && bytes_eq bob bob
        then 5
        else get_allowance hash alice bob (funded.storage)))
    × (get_balance hash alice w'.storage ≡ get_balance hash alice (funded.storage))
approve-sets_example =
    approve-sets (decoders 5) host funded hash-NoCollision [] bob 5 refl (omega arith) refl refl
      alice bob refl refl
