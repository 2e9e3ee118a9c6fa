-- ===== src/Uniswap/Distinct.antt =====
-- The selectors of the sample differ.
use risc_v_rust.Base.{
  ◌-◌, ◌≡◌, refl, sym, ap, ◌∙◌, none, some, [], ◌∷◌, get_elem?, ◌==◌, if◌then◌else◌,
}
use risc_v_rust.Base.Bytes.{Bytes}
use risc_v_rust.Uniswap.Pair.Dispatch.Reaches.{Entry, selector_of, entries}
use risc_v_rust.Uniswap.Sample.{selectors}

-- The function that has a selector.
abbrev entry_at : Bytes → Entry
entry_at (a ∷ b ∷ c ∷ n ∷ []) =
    if a == 1
    then Entry.initialize
    else elim (get_elem? entries (n - 1)) [ none ↦ Entry.factory | some f ↦ f ]
entry_at _ = Entry.factory

entry_at-selector_of : (f : Entry) → entry_at (selector_of selectors f) ≡ f
entry_at-selector_of Entry.factory = refl
entry_at-selector_of Entry.token0 = refl
entry_at-selector_of Entry.token1 = refl
entry_at-selector_of Entry.get_reserves = refl
entry_at-selector_of Entry.total_supply = refl
entry_at-selector_of Entry.balance_of = refl
entry_at-selector_of Entry.allowance = refl
entry_at-selector_of Entry.minimum_liquidity = refl
entry_at-selector_of Entry.price0_cumulative_last = refl
entry_at-selector_of Entry.price1_cumulative_last = refl
entry_at-selector_of Entry.k_last = refl
entry_at-selector_of Entry.initialize = refl
entry_at-selector_of Entry.mint = refl
entry_at-selector_of Entry.burn = refl
entry_at-selector_of Entry.swap = refl
entry_at-selector_of Entry.skim = refl
entry_at-selector_of Entry.sync = refl
entry_at-selector_of Entry.approve = refl
entry_at-selector_of Entry.transfer = refl
entry_at-selector_of Entry.transfer_from = refl

pub distinct : (f g : Entry) → selector_of selectors f ≡ selector_of selectors g → f ≡ g
distinct f g e = sym (entry_at-selector_of f) ∙ ap entry_at e ∙ entry_at-selector_of g
