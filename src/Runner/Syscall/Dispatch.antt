-- ===== src/Runner/Syscall/Dispatch.antt =====
-- The dispatch table answers an index as the symbol of that import would be; symbols of known calls
-- are told apart.
use risc_v_rust.Base.{
  ℕ, zero, suc, ◌+◌, ◌<◌, ◌≡◌, ◌≢◌, refl, sym, ap, ◌∙◌, none, some, List, [], ◌∷◌, ◌++◌, arith,
  length, get_elem?, drop, drop_all, Option-cases, Bool-cases, inl, inr, if◌then◌else◌,
}
use native.Mathlib.Numerals.{add-one}
use mathlib.Core.List.{append_assoc, append-nil, map}
use risc_v_rust.Base.Bytes.{Bytes, bytes_eq, bytes_eq_iff, codes}
use risc_v_rust.Runner.Syscall.{SyscallId, symbol_to_syscall_id, table_loop, from_module, get}

-- What an index stands for: the call of that import's symbol, or none that is known.
abbrev pub expected : List Bytes → ℕ → SyscallId
expected imports idx = elim (get_elem? imports idx) [
  | none ↦ SyscallId.unknown
  | some symbol ↦ symbol_to_syscall_id symbol
]

get_elem?-drop {ℓ} :
    {A : Type ℓ} (xs : List A) (i : ℕ)
    → drop i xs ≡ elim (get_elem? xs i) [ none ↦ [] | some x ↦ x ∷ drop (suc i) xs ]
get_elem?-drop [] zero = refl
get_elem?-drop [] (suc i) = refl
get_elem?-drop (x ∷ xs) zero = refl
get_elem?-drop (x ∷ []) (suc i) = get_elem?-drop [] i
get_elem?-drop (x ∷ y ∷ xs) (suc i) = get_elem?-drop (y ∷ xs) i

module _ (imports : List Bytes) where
  table_loop-eq :
      (fuel idx : ℕ) (table : List SyscallId)
      → length imports < idx + fuel
      → table_loop fuel imports idx table ≡ table ++ map symbol_to_syscall_id (drop idx imports)
  unfolding table_loop
  table_loop-eq zero idx table h = rw (drop_all idx imports (omega arith), append-nil)
  table_loop-eq (suc fuel) idx table h = elim (Option-cases (get_elem? imports idx)) [
    | inl e ↦ rw (get_elem?-drop imports idx) (rw (e, table_loop) (rw append-nil))
    | inr (x, e) ↦ rw (get_elem?-drop imports idx) (
        rw (e, table_loop)
          (rw (table_loop-eq fuel (idx + 1) (table ++ symbol_to_syscall_id x ∷ []) (omega arith))
            (rw (append_assoc, add-one))))
  ]

  from_module-eq : from_module imports ≡ map symbol_to_syscall_id imports
  unfolding from_module
  from_module-eq = table_loop-eq (suc (length imports)) 0 [] (omega arith)

get-map :
    (imports : List Bytes) (idx : ℕ)
    → get (map symbol_to_syscall_id imports) idx ≡ expected imports idx
unfolding get
get-map [] idx = refl
get-map (x ∷ xs) zero = refl
get-map (x ∷ xs) (suc idx) = get-map xs idx

-- The table that is built from a module answers every index, also one out of range, as the symbol of
-- that import would be answered; the loop that builds it ends at the last import.
pub get-from_module :
    (imports : List Bytes) (idx : ℕ) → get (from_module imports) idx ≡ expected imports idx
get-from_module imports idx = rw (from_module-eq imports) (get-map imports idx)

abbrev symbol_of : SyscallId → Bytes
symbol_of SyscallId.call_data_size = codes "call_data_size"
symbol_of SyscallId.call_data_load = codes "call_data_load"
symbol_of SyscallId.call_data_copy = codes "call_data_copy"
symbol_of SyscallId.seal_return = codes "seal_return"
symbol_of SyscallId.consume_all_gas = codes "consume_all_gas"
symbol_of SyscallId.value_transferred = codes "value_transferred"
symbol_of SyscallId.set_immutable_data = codes "set_immutable_data"
symbol_of SyscallId.get_immutable_data = codes "get_immutable_data"
symbol_of SyscallId.get_storage_or_zero = codes "get_storage_or_zero"
symbol_of SyscallId.set_storage_or_clear = codes "set_storage_or_clear"
symbol_of SyscallId.hash_keccak_256 = codes "hash_keccak_256"
symbol_of SyscallId.address = codes "address"
symbol_of SyscallId.caller = codes "caller"
symbol_of SyscallId.balance = codes "balance"
symbol_of SyscallId.block_number = codes "block_number"
symbol_of SyscallId.return_data_size = codes "return_data_size"
symbol_of SyscallId.ref_time_left = codes "ref_time_left"
symbol_of SyscallId.unknown = []

-- One test of the chain.
chain_step :
    (s name : Bytes) (id rest : SyscallId)
    → symbol_of id ≡ name
    → (rest ≢ SyscallId.unknown → s ≡ symbol_of rest)
    → (if bytes_eq s name then id else rest) ≢ SyscallId.unknown
    → s ≡ symbol_of (if bytes_eq s name then id else rest)
chain_step s name id rest e k h = elim (Bool-cases (bytes_eq s name)) [
  | inl same ↦ rw same ((bytes_eq_iff s name).0 same ∙ sym e)
  | inr other ↦ rw other (k (rw other at h))
]

symbol_of-id :
    (s : Bytes)
    → symbol_to_syscall_id s ≢ SyscallId.unknown
    → s ≡ symbol_of (symbol_to_syscall_id s)
unfolding symbol_to_syscall_id
symbol_of-id s = chain_step s (codes "call_data_size") SyscallId.call_data_size _ refl (
    chain_step s (codes "call_data_load") SyscallId.call_data_load _ refl (
      chain_step s (codes "call_data_copy") SyscallId.call_data_copy _ refl (
        chain_step s (codes "seal_return") SyscallId.seal_return _ refl (
          chain_step s (codes "consume_all_gas") SyscallId.consume_all_gas _ refl (
            chain_step s (codes "value_transferred") SyscallId.value_transferred _ refl (
              chain_step s (codes "set_immutable_data") SyscallId.set_immutable_data _ refl (
                chain_step s (codes "get_immutable_data") SyscallId.get_immutable_data _ refl (
                  chain_step s (codes "get_storage_or_zero") SyscallId.get_storage_or_zero _ refl (
                    chain_step s (codes "set_storage_or_clear") SyscallId.set_storage_or_clear _
                      refl
                      (chain_step s (codes "hash_keccak_256") SyscallId.hash_keccak_256 _ refl (
                        chain_step s (codes "address") SyscallId.address _ refl (
                          chain_step s (codes "caller") SyscallId.caller _ refl (
                            chain_step s (codes "balance") SyscallId.balance _ refl (
                              chain_step s (codes "block_number") SyscallId.block_number _ refl (
                                chain_step s (codes "return_data_size") SyscallId.return_data_size _
                                  refl
                                  (chain_step s (codes "ref_time_left") SyscallId.ref_time_left _
                                    refl (λ h. absurd (h refl))))))))))))))))))

-- Two symbols that stand for the same known call are the same symbol.
symbol_to_syscall_id-injective :
    (s t : Bytes)
    → symbol_to_syscall_id s ≢ SyscallId.unknown
    → symbol_to_syscall_id s ≡ symbol_to_syscall_id t
    → s ≡ t
symbol_to_syscall_id-injective s t h e =
    symbol_of-id s h ∙ ap symbol_of e ∙ sym (symbol_of-id t (λ u. h (e ∙ u)))
