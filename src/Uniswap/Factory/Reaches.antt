-- ===== src/Uniswap/Factory/Reaches.antt =====
-- The factory's entry point reaches each function by its selector, and refuses every other input.
use risc_v_rust.Base.{
  ℕ, ◌≤◌, ◌≡◌, refl, ap, some, List, [], ◌∷◌, arith, length, take, ltb, get_elem?, false,
}
use risc_v_rust.Base.Bytes.{Bytes}
use risc_v_rust.Uniswap.Host.{World, M, Host, gets, revert, ◌>>=◌}
use risc_v_rust.Uniswap.FirstMatch.{first_match, table, first_match-table}
use risc_v_rust.Uniswap.Slots.{storage_get_u256}
use risc_v_rust.Uniswap.Pair.Calls.{return_u256}
use risc_v_rust.Uniswap.Factory
use risc_v_rust.Uniswap.Factory.{
  FactorySelectors, FactoryDecoders, slot_fee_to, slot_fee_to_setter, return_pair, return_all_pairs,
  call_selected, call,
}

-- The functions of the factory's interface.
pub data FactoryEntry : Type 0 where
  fee_to fee_to_setter get_pair all_pairs all_pairs_length create_pair : FactoryEntry
  set_fee_to set_fee_to_setter : FactoryEntry

abbrev pub selector_of : FactorySelectors → FactoryEntry → Bytes
selector_of sel FactoryEntry.fee_to = sel.fee_to
selector_of sel FactoryEntry.fee_to_setter = sel.fee_to_setter
selector_of sel FactoryEntry.get_pair = sel.get_pair
selector_of sel FactoryEntry.all_pairs = sel.all_pairs
selector_of sel FactoryEntry.all_pairs_length = sel.all_pairs_length
selector_of sel FactoryEntry.create_pair = sel.create_pair
selector_of sel FactoryEntry.set_fee_to = sel.set_fee_to
selector_of sel FactoryEntry.set_fee_to_setter = sel.set_fee_to_setter

abbrev pub entries : List FactoryEntry
entries =
    FactoryEntry.fee_to ∷ FactoryEntry.fee_to_setter ∷ FactoryEntry.get_pair
    ∷ FactoryEntry.all_pairs ∷ FactoryEntry.all_pairs_length ∷ FactoryEntry.create_pair
    ∷ FactoryEntry.set_fee_to ∷ FactoryEntry.set_fee_to_setter ∷ []

position : FactoryEntry → ℕ
position FactoryEntry.fee_to = 0
position FactoryEntry.fee_to_setter = 1
position FactoryEntry.get_pair = 2
position FactoryEntry.all_pairs = 3
position FactoryEntry.all_pairs_length = 4
position FactoryEntry.create_pair = 5
position FactoryEntry.set_fee_to = 6
position FactoryEntry.set_fee_to_setter = 7

entries-position : (f : FactoryEntry) → get_elem? entries (position f) ≡ some f
unfolding position
entries-position FactoryEntry.fee_to = refl
entries-position FactoryEntry.fee_to_setter = refl
entries-position FactoryEntry.get_pair = refl
entries-position FactoryEntry.all_pairs = refl
entries-position FactoryEntry.all_pairs_length = refl
entries-position FactoryEntry.create_pair = refl
entries-position FactoryEntry.set_fee_to = refl
entries-position FactoryEntry.set_fee_to_setter = refl

module _ {E : Type 0} (sel : FactorySelectors) (abi : FactoryDecoders) (host : Host E) where
  -- What each function does.
  unfoldable pub run : Bytes → FactoryEntry → M E (Unit {0})
  run call_data FactoryEntry.fee_to = (do return_u256 (← gets (storage_get_u256 slot_fee_to)))
  run call_data FactoryEntry.fee_to_setter = (do
    return_u256 (← gets (storage_get_u256 slot_fee_to_setter)))
  run call_data FactoryEntry.get_pair = return_pair host abi call_data
  run call_data FactoryEntry.all_pairs = return_all_pairs host abi call_data
  run call_data FactoryEntry.all_pairs_length = (do return_u256 (← gets Factory.all_pairs_length))
  run call_data FactoryEntry.create_pair = Factory.create_pair host abi call_data
  run call_data FactoryEntry.set_fee_to = Factory.set_fee_to host abi call_data
  run call_data FactoryEntry.set_fee_to_setter = Factory.set_fee_to_setter host abi call_data

  call_selected-table :
      (selector call_data : Bytes)
      → call_selected host abi sel selector call_data
        ≡ first_match selector (table (selector_of sel) (run call_data) revert entries) revert
  unfolding call_selected run
  call_selected-table selector call_data = refl

  -- Where the factory's selectors differ: an input of four bytes or more that begins with a function's selector is served by
  -- that function.
  pub factory_call-run :
      ((f g : FactoryEntry) → selector_of sel f ≡ selector_of sel g → f ≡ g)
      → (f : FactoryEntry) (call_data : Bytes) (w : World E) → 4 ≤ length call_data
      → take 4 call_data ≡ selector_of sel f
      → call host abi sel call_data w ≡ run call_data f w
  unfolding call ◌>>=◌
  factory_call-run distinct f call_data w long e =
      let enough : ltb (length call_data) 4 ≡ false = ground arith in
      rw enough (
        rw call_selected-table (
          rw e (
            ap (λ m. m w)
              (first_match-table (selector_of sel) (run call_data) revert distinct entries
                (position f) f (entries-position f)))))
