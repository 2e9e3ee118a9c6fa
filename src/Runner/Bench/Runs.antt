-- ===== src/Runner/Bench/Runs.antt =====
-- How a run of the benchmark of revm ends.
use risc_v_rust.Base.{ℕ, ◌+◌, ◌≡◌, refl, ap, subst, ◌⊎◌, inl, inr, none, some, [], ◌∷◌}
use risc_v_rust.Base.Bytes.{Bytes}
use risc_v_rust.Runner.Engine.{ok}
use risc_v_rust.Runner.Evm
use risc_v_rust.Runner.Evm.{RevmExecutor, EvmError, Fallible, transaction}
use risc_v_rust.Runner.Evm.Chain.{Revm}
use risc_v_rust.Runner.Evm.History.{NonceRule, Op, history, perform, transactions}
use risc_v_rust.Runner.Evm.Once.{call-refused}
use risc_v_rust.Runner.Loader.{Files, load_evm_bytecode}
use risc_v_rust.Runner.Bench.{
  panicked, call_failed, report, expect, deployed, bench_revm_arithmetic,
}

module _ (files : Files) (encode_compute : ℕ → ℕ → Bytes) {C X H R : Type 0}
    (revm : Revm C X H R) where
  report_created :
      NonceRule revm
      → (init : Bytes) (done : Fallible Bytes H R × RevmExecutor C X)
      → Evm.deploy_create revm init (Evm.new revm) ≡ done
      → (expect done ≡ none)
        ⊎ ((e : RevmExecutor C X) × (r : R) × (expect done ≡ some e)
            × ((Evm.call revm (encode_compute 12345 6789) e).0 ≡ Fallible.err (transaction r)))
  unfolding expect history perform transactions
  report_created rule init (Fallible.ok addr, e) h =
      let (r, failed) =
        call-refused revm rule (Op.deploy_create init ∷ []) (encode_compute 12345 6789)
          (ap (λ d. transactions d.0 + 0) h) in
      inr (
        e,
        r,
        refl,
        subst
            (λ d. (Evm.call revm (encode_compute 12345 6789) d.1).0 ≡ Fallible.err (transaction r))
            h failed,
      )
  report_created rule init (Fallible.err error, e) h = inl refl
  report_created rule init (Fallible.panicked, e) h = inl refl

  -- When revm checks nonces: code of which the loader leaves no runtime part is deployed by a transaction, and the run
  -- then prints no result. It panics, or its call is an error of the transaction.
  pub bench_revm_arithmetic_unprinted :
      NonceRule revm
      → (init : Bytes) → load_evm_bytecode files ≡ ok (init, [])
      → (bench_revm_arithmetic files encode_compute revm ≡ panicked)
        ⊎ ((r : R) × (bench_revm_arithmetic files encode_compute revm
              ≡ call_failed (transaction r)))
  unfolding deployed report bench_revm_arithmetic
  bench_revm_arithmetic_unprinted rule init e =
      elim (report_created rule init (Evm.deploy_create revm init (Evm.new revm)) refl) [
        | inl none_left ↦ inl (rw (e, bench_revm_arithmetic) (rw none_left refl))
        | inr (executor, r, f, failed) ↦
            inr (r, rw (e, bench_revm_arithmetic) (rw f (rw failed refl)))
      ]
