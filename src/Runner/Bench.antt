-- ===== src/Runner/Bench.antt =====
-- The benchmark program (pvm/src/main.rs, lines 82 to 151).
pub mod Runs
use risc_v_rust.Base.{ℕ, Option, none, some, List, [], ◌∷◌}
use risc_v_rust.Base.Bytes.{Bytes}
use risc_v_rust.Runner.Table.{Table}
use risc_v_rust.Runner.Machine.{Machine}
use risc_v_rust.Runner.Engine
use risc_v_rust.Runner.Engine.{Result, ok, err, SetupError, Polkavm}
use risc_v_rust.Runner.Exec.{Module, CallResult, RunError, call_with_data}
use risc_v_rust.Runner.Evm
use risc_v_rust.Runner.Evm.{RevmExecutor, EvmError, Fallible}
use risc_v_rust.Runner.Evm.Chain.{Revm}
use risc_v_rust.Runner.Loader.{Files, LoadError, load_evm_bytecode, load_polkavm_bytecode}

-- What a benchmark prints, or the panic of an `unwrap`.
pub data Report (A E : Type 0) : Type 0 where
  skipped : LoadError → Report A E
  no_executor no_module : SetupError → Report A E
  call_failed : E → Report A E
  printed : A → Report A E
  panicked : Report A E

-- `expect`: `none` is its panic.
unfoldable pub expect :
    {A C X H R : Type 0} → Fallible A H R × RevmExecutor C X → Option (RevmExecutor C X)
expect (Fallible.ok a, e) = some e
expect (Fallible.err error, e) = none
expect (Fallible.panicked, e) = none

unfoldable pub report :
    {H R : Type 0} → Fallible (ℕ × Bytes) H R → Report (ℕ × Bytes) (EvmError H R)
report (Fallible.ok r) = printed r
report (Fallible.err e) = call_failed e
report Fallible.panicked = panicked

-- The `unwrap` of the result.
unfoldable pub unwrap_call : CallResult → Report (ℕ × Bytes) RunError
unwrap_call (CallResult.ok gas output) = printed (gas, output)
unwrap_call (CallResult.err e) = panicked

-- `encode_compute` is the call data of `compute`, as alloy encodes it.
module _ (files : Files) (encode_compute : ℕ → ℕ → Bytes) where
  module _ {C X H R : Type 0} (revm : Revm C X H R) where
    -- The executor with the code deployed, or `none` for a panic.
    unfoldable pub deployed : Bytes → Bytes → Option (RevmExecutor C X)
    deployed init [] = expect (Evm.deploy_create revm init (Evm.new revm))
    deployed init (b ∷ runtime) = expect (Evm.deploy revm (b ∷ runtime) (Evm.new revm))

    unfoldable pub bench_revm_arithmetic : Report (ℕ × Bytes) (EvmError H R)
    bench_revm_arithmetic = elim (load_evm_bytecode files) [
      | err e ↦ skipped e
      | ok (init, runtime) ↦ elim (deployed init runtime) [
        | none ↦ panicked
        | some executor ↦ report (Evm.call revm (encode_compute 12345 6789) executor).0
      ]
    ]

  module _ {I : Type 0} (m : Machine I) (polkavm : Polkavm I) where
    -- On fuel: `none` is a call that has not ended yet.
    unfoldable pub bench_pvm_arithmetic : ℕ → Option (Report (ℕ × Bytes) RunError)
    bench_pvm_arithmetic fuel = elim (load_polkavm_bytecode files) [
      | err e ↦ some (skipped e)
      | ok bytecode ↦ elim (Engine.new polkavm) [
        | err e ↦ some (no_executor e)
        | ok executor ↦ elim (Engine.load_module polkavm executor bytecode) [
          | err e ↦ some (no_module e)
          | ok module_ ↦
              elim (call_with_data m fuel module_ (encode_compute 12345 6789) executor.storage) [
                | none ↦ none
                | some (result, table) ↦ some (unwrap_call result)
              ]
        ]
      ]
    ]
