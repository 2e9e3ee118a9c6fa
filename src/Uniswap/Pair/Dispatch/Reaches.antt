-- ===== src/Uniswap/Pair/Dispatch/Reaches.antt =====
-- The entry point `call` reaches each function by its selector, and refuses every other input.
use risc_v_rust.Base.{
  ℕ, ◌≤◌, ◌<◌, ◌≡◌, ◌≢◌, ◌⊎◌, inl, inr, refl, ap, some, List, [], ◌∷◌, arith, length, take, ltb,
  lt→ltb, get_elem?, false, Bool-cases,
}
use risc_v_rust.Base.Bytes.{Bytes}
use risc_v_rust.Uniswap.Host.{reverted, World, M, Host, gets, revert, ◌>>=◌}
use risc_v_rust.Uniswap.FirstMatch.{first_match, table, first_match-table, first_match-absent}
use risc_v_rust.Uniswap.Pair.Abi.{Selectors, Decoders}
use risc_v_rust.Uniswap.Pair.State
use risc_v_rust.Uniswap.Pair.State.{
  slot_price0_cumulative, slot_price1_cumulative, slot_k_last, slot_total_supply, get_factory,
  get_token0, get_token1, address_word,
}
use risc_v_rust.Uniswap.Pair.Calls.{return_u256}
use risc_v_rust.Uniswap.Pair.Liquidity
use risc_v_rust.Uniswap.Pair.Trade
use risc_v_rust.Uniswap.Pair.Token
use risc_v_rust.Uniswap.Pair.Dispatch.{
  return_slot, return_reserves, return_balance, return_allowance, call_mutating, call_selected,
  call,
}

-- The functions that the pair serves. Of those that IUniswapV2Pair.sol declares, `name`, `symbol` and `decimals` are
-- not among them.
pub data Entry : Type 0 where
  factory token0 token1 get_reserves total_supply balance_of : Entry
  allowance minimum_liquidity price0_cumulative_last price1_cumulative_last k_last initialize :
      Entry
  mint burn swap skim sync approve : Entry
  transfer transfer_from : Entry

abbrev pub selector_of : Selectors → Entry → Bytes
selector_of sel Entry.factory = sel.factory
selector_of sel Entry.token0 = sel.token0
selector_of sel Entry.token1 = sel.token1
selector_of sel Entry.get_reserves = sel.get_reserves
selector_of sel Entry.total_supply = sel.total_supply
selector_of sel Entry.balance_of = sel.balance_of
selector_of sel Entry.allowance = sel.allowance
selector_of sel Entry.minimum_liquidity = sel.minimum_liquidity
selector_of sel Entry.price0_cumulative_last = sel.price0_cumulative_last
selector_of sel Entry.price1_cumulative_last = sel.price1_cumulative_last
selector_of sel Entry.k_last = sel.k_last
selector_of sel Entry.initialize = sel.initialize
selector_of sel Entry.mint = sel.mint
selector_of sel Entry.burn = sel.burn
selector_of sel Entry.swap = sel.swap
selector_of sel Entry.skim = sel.skim
selector_of sel Entry.sync = sel.sync
selector_of sel Entry.approve = sel.approve
selector_of sel Entry.transfer = sel.transfer
selector_of sel Entry.transfer_from = sel.transfer_from

abbrev pub entries : List Entry
entries =
    Entry.factory ∷ Entry.token0 ∷ Entry.token1 ∷ Entry.get_reserves ∷ Entry.total_supply
    ∷ Entry.balance_of ∷ Entry.allowance ∷ Entry.minimum_liquidity ∷ Entry.price0_cumulative_last
    ∷ Entry.price1_cumulative_last ∷ Entry.k_last ∷ Entry.initialize ∷ Entry.mint ∷ Entry.burn
    ∷ Entry.swap ∷ Entry.skim ∷ Entry.sync ∷ Entry.approve ∷ Entry.transfer ∷ Entry.transfer_from
    ∷ []

position : Entry → ℕ
position Entry.factory = 0
position Entry.token0 = 1
position Entry.token1 = 2
position Entry.get_reserves = 3
position Entry.total_supply = 4
position Entry.balance_of = 5
position Entry.allowance = 6
position Entry.minimum_liquidity = 7
position Entry.price0_cumulative_last = 8
position Entry.price1_cumulative_last = 9
position Entry.k_last = 10
position Entry.initialize = 11
position Entry.mint = 12
position Entry.burn = 13
position Entry.swap = 14
position Entry.skim = 15
position Entry.sync = 16
position Entry.approve = 17
position Entry.transfer = 18
position Entry.transfer_from = 19

entries-position : (f : Entry) → get_elem? entries (position f) ≡ some f
unfolding position
entries-position Entry.factory = refl
entries-position Entry.token0 = refl
entries-position Entry.token1 = refl
entries-position Entry.get_reserves = refl
entries-position Entry.total_supply = refl
entries-position Entry.balance_of = refl
entries-position Entry.allowance = refl
entries-position Entry.minimum_liquidity = refl
entries-position Entry.price0_cumulative_last = refl
entries-position Entry.price1_cumulative_last = refl
entries-position Entry.k_last = refl
entries-position Entry.initialize = refl
entries-position Entry.mint = refl
entries-position Entry.burn = refl
entries-position Entry.swap = refl
entries-position Entry.skim = refl
entries-position Entry.sync = refl
entries-position Entry.approve = refl
entries-position Entry.transfer = refl
entries-position Entry.transfer_from = refl

module _ {E : Type 0} (sel : Selectors) (abi : Decoders) (host : Host E) where
  -- What each function does.
  unfoldable pub run : Bytes → Entry → M E (Unit {0})
  run call_data Entry.factory = (do return_u256 (address_word (← gets get_factory)))
  run call_data Entry.token0 = (do return_u256 (address_word (← gets get_token0)))
  run call_data Entry.token1 = (do return_u256 (address_word (← gets get_token1)))
  run call_data Entry.get_reserves = return_reserves
  run call_data Entry.total_supply = return_slot slot_total_supply
  run call_data Entry.balance_of = return_balance sel abi host call_data
  run call_data Entry.allowance = return_allowance sel abi host call_data
  run call_data Entry.minimum_liquidity = return_u256 State.minimum_liquidity
  run call_data Entry.price0_cumulative_last = return_slot slot_price0_cumulative
  run call_data Entry.price1_cumulative_last = return_slot slot_price1_cumulative
  run call_data Entry.k_last = return_slot slot_k_last
  run call_data Entry.initialize = Liquidity.initialize abi host call_data
  run call_data Entry.mint = Liquidity.mint abi host call_data
  run call_data Entry.burn = Liquidity.burn abi host call_data
  run call_data Entry.swap = Trade.swap abi host call_data
  run call_data Entry.skim = Trade.skim abi host call_data
  run call_data Entry.sync = Trade.sync abi host
  run call_data Entry.approve = Token.approve abi host call_data
  run call_data Entry.transfer = Token.transfer abi host call_data
  run call_data Entry.transfer_from = Token.transfer_from abi host call_data

  call_selected-table :
      (selector call_data : Bytes)
      → call_selected sel abi host selector call_data
        ≡ first_match selector (table (selector_of sel) (run call_data) revert entries) revert
  unfolding call_selected call_mutating run
  call_selected-table selector call_data = refl

  -- Where selectors differ: an input of four bytes or more that begins with a function's selector is served by
  -- that function.
  pub call-run :
      ((f g : Entry) → selector_of sel f ≡ selector_of sel g → f ≡ g)
      → (f : Entry) (call_data : Bytes) (w : World E) → 4 ≤ length call_data
      → take 4 call_data ≡ selector_of sel f
      → call sel abi host call_data w ≡ run call_data f w
  unfolding call ◌>>=◌
  call-run distinct f call_data w long e =
      let enough : ltb (length call_data) 4 ≡ false = ground arith in
      rw enough (
        rw call_selected-table (
          rw e (
            ap (λ m. m w)
              (first_match-table (selector_of sel) (run call_data) revert distinct entries
                (position f) f (entries-position f)))))

  -- An input of fewer than four bytes, or with a selector that none of the twenty functions which the
  -- pair serves has, reverts and changes nothing.
  pub call_refused :
      (call_data : Bytes) (w : World E)
      → (length call_data < 4) ⊎ ((f : Entry) → take 4 call_data ≢ selector_of sel f)
      → call sel abi host call_data w ≡ (reverted, w)
  unfolding call ◌>>=◌
  call_refused call_data w (inl short) = rw (lt→ltb (length call_data) 4 short)
  call_refused call_data w (inr unknown) = elim (Bool-cases (ltb (length call_data) 4)) [
    | inl short ↦ rw short
    | inr long ↦ rw long (
        rw call_selected-table (
          ap (λ m. m w)
            (first_match-absent (selector_of sel) (run call_data) revert (take 4 call_data) entries
              unknown)))
  ]
