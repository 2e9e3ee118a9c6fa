-- ===== src/Uniswap/DispatchExamples.antt =====
-- The theorems about both entry points, at concrete inputs.
use risc_v_rust.Base.{◌-◌, ◌≡◌, refl, sym, ap, ◌∙◌, none, some, inl, [], ◌∷◌, arith, get_elem?}
use risc_v_rust.Base.Bytes.{Bytes}
use risc_v_rust.Uniswap.Host.{reverted}
use risc_v_rust.Uniswap.Pair.Dispatch.{call}
use risc_v_rust.Uniswap.Pair.Dispatch.Reaches.{Entry, run, call-run, call_refused}
use risc_v_rust.Uniswap.Factory
use risc_v_rust.Uniswap.Factory.{FactorySelectors, FactoryDecoders}
use risc_v_rust.Uniswap.Factory.Reaches
use risc_v_rust.Uniswap.Factory.Reaches.{FactoryEntry, factory_call-run}
use risc_v_rust.Uniswap.Distinct.{distinct}
use risc_v_rust.Uniswap.Sample.{host, decoders, selectors, unlocked, alice, bob}

call-run_example :
    call selectors (decoders 0) host (0 ∷ 0 ∷ 0 ∷ 17 ∷ []) unlocked
    ≡ run selectors (decoders 0) host (0 ∷ 0 ∷ 0 ∷ 17 ∷ []) Entry.sync unlocked
call-run_example =
    call-run selectors (decoders 0) host distinct Entry.sync (0 ∷ 0 ∷ 0 ∷ 17 ∷ []) unlocked
      (omega arith) refl

call_refused_example :
    call selectors (decoders 0) host (0 ∷ 0 ∷ 0 ∷ []) unlocked ≡ (reverted, unlocked)
call_refused_example =
    call_refused selectors (decoders 0) host (0 ∷ 0 ∷ 0 ∷ []) unlocked (inl (omega arith))

abbrev factory_selectors : FactorySelectors
factory_selectors = record {
  fee_to = 0 ∷ 0 ∷ 0 ∷ 1 ∷ [];
  fee_to_setter = 0 ∷ 0 ∷ 0 ∷ 2 ∷ [];
  get_pair = 0 ∷ 0 ∷ 0 ∷ 3 ∷ [];
  all_pairs = 0 ∷ 0 ∷ 0 ∷ 4 ∷ [];
  all_pairs_length = 0 ∷ 0 ∷ 0 ∷ 5 ∷ [];
  create_pair = 0 ∷ 0 ∷ 0 ∷ 6 ∷ [];
  set_fee_to = 0 ∷ 0 ∷ 0 ∷ 7 ∷ [];
  set_fee_to_setter = 0 ∷ 0 ∷ 0 ∷ 8 ∷ [];
}

abbrev factory_decoders : FactoryDecoders
factory_decoders = record {
  get_pair = λ _. some (alice, bob);
  all_pairs = λ _. some 0;
  create_pair = λ _. some (alice, bob);
  set_fee_to = λ _. some alice;
  set_fee_to_setter = λ _. some bob;
}

abbrev factory_entry_at : Bytes → FactoryEntry
factory_entry_at (a ∷ b ∷ c ∷ n ∷ []) = elim (get_elem? Reaches.entries (n - 1)) [
  | none ↦ FactoryEntry.fee_to
  | some f ↦ f
]
factory_entry_at _ = FactoryEntry.fee_to

factory_entry_at-selector_of :
    (f : FactoryEntry) → factory_entry_at (Reaches.selector_of factory_selectors f) ≡ f
factory_entry_at-selector_of FactoryEntry.fee_to = refl
factory_entry_at-selector_of FactoryEntry.fee_to_setter = refl
factory_entry_at-selector_of FactoryEntry.get_pair = refl
factory_entry_at-selector_of FactoryEntry.all_pairs = refl
factory_entry_at-selector_of FactoryEntry.all_pairs_length = refl
factory_entry_at-selector_of FactoryEntry.create_pair = refl
factory_entry_at-selector_of FactoryEntry.set_fee_to = refl
factory_entry_at-selector_of FactoryEntry.set_fee_to_setter = refl

factory_distinct :
    (f g : FactoryEntry)
    → Reaches.selector_of factory_selectors f ≡ Reaches.selector_of factory_selectors g
    → f ≡ g
factory_distinct f g e =
    sym (factory_entry_at-selector_of f) ∙ ap factory_entry_at e ∙ factory_entry_at-selector_of g

factory_call-run_example :
    Factory.call host factory_decoders factory_selectors (0 ∷ 0 ∷ 0 ∷ 7 ∷ []) unlocked
    ≡ Reaches.run factory_selectors factory_decoders host
        (0 ∷ 0 ∷ 0 ∷ 7 ∷ [])
        FactoryEntry.set_fee_to
        unlocked
factory_call-run_example =
    factory_call-run factory_selectors factory_decoders host factory_distinct
      FactoryEntry.set_fee_to (0 ∷ 0 ∷ 0 ∷ 7 ∷ []) unlocked (omega arith) refl
