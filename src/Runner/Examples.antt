-- ===== src/Runner/Examples.antt =====
-- A machine that counts its runs down, on which the theorems about the runner are applied.
use risc_v_rust.Base.{
  ℕ, zero, suc, ◌+◌, ◌<◌, ◌≡◌, ◌≢◌, ◌%◌, ◌^◌, if◌then◌else◌, refl, some, Option, [], ◌∷◌, arith,
  replicate, length,
}
use risc_v_rust.Base.Bytes.{zeros, bytes_eq, codes}
use risc_v_rust.Uniswap.Host.{set_storage_or_clear}
use risc_v_rust.Runner.Table.{Table}
use risc_v_rust.Runner.Table.View.{view, IsSparse}
use risc_v_rust.Runner.Syscall.{SyscallId, symbol_to_syscall_id, from_module, get}
use risc_v_rust.Runner.Syscall.Dispatch.{expected, get-from_module}
use risc_v_rust.Runner.Machine.{Machine, InterruptKind, return_value, u32_max}
use risc_v_rust.Runner.ById.{handle_syscall_by_id}
use risc_v_rust.Runner.ById.Stores.{handle_syscall_by_id-stores}
use risc_v_rust.Runner.Legacy.{handle_syscall}
use risc_v_rust.Runner.Legacy.Agrees.{handle_syscall-by_id}
use risc_v_rust.Runner.Exec.{Module, CallResult, call_with_data}
use risc_v_rust.Runner.Exec.Halts.{Metered, call_with_data-ends}

-- A machine whose state is the number of system calls that it still makes: each asks for import 0.
unfoldable pub run_down : ℕ → Option InterruptKind × ℕ
run_down zero = (some InterruptKind.finished, 0)
run_down (suc n) = (some (InterruptKind.ecalli 0), n)

abbrev counter : Machine ℕ
counter = record {
  reg_a0 = λ _. 0;
  reg_a1 = λ _. 32;
  reg_a2 = λ _. 64;
  set_reg_a0 = λ _ i. i;
  write_memory = λ _ _ i. i;
  zero_memory = λ _ _ i. i;
  read_memory_into = λ _ p buffer. replicate (length buffer) 1;
  gas = λ i. i;
  set_gas = λ _ i. i;
  prepare_call = λ _ i. i;
  run = run_down;
  keccak256 = λ b. b;
}

run_down-lowers :
    (i j : ℕ) (k : InterruptKind) → k ≢ InterruptKind.finished → run_down i ≡ (some k, j) → j < i
unfolding run_down
run_down-lowers zero j k ne e = absurd (ne cc)
run_down-lowers (suc n) j k ne e = let same : n ≡ j = cc in omega arith

counter-Metered : Metered counter (λ i. i)
counter-Metered = record {
  step = λ i j. run_down-lowers i j InterruptKind.step (λ e. cc);
  ecalli = λ i j idx. run_down-lowers i j (InterruptKind.ecalli idx) (λ e. cc);
  write = λ i p b. refl;
  zero = λ i p n. refl;
  set = λ i v. refl;
}

-- A module that stores a word on each of three system calls.
abbrev storing : Module ℕ
storing = record {
  exports = (codes "deploy", 4) ∷ (codes "call", 8) ∷ [];
  imports = codes "set_storage_or_clear" ∷ [];
  instantiate = some 3;
}

call_with_data-ends_example :
    (r : CallResult) × (t : Table) × ((extra : ℕ)
      → call_with_data counter (4 + extra) storing [] [] ≡ some (r, t))
    × IsSparse t
call_with_data-ends_example =
    call_with_data-ends counter (λ i. i) counter-Metered storing [] [] 4
      (λ pc i e f. let same : 3 ≡ i = cc in omega arith) tt

handle_syscall-by_id_example :
    handle_syscall counter (codes "caller") [] [] 3
    ≡ handle_syscall_by_id counter (symbol_to_syscall_id (codes "caller")) [] [] 3
handle_syscall-by_id_example = handle_syscall-by_id counter [] [] 3 (codes "caller")

get-from_module_example :
    get (from_module (codes "caller" ∷ codes "address" ∷ [])) 1
    ≡ expected (codes "caller" ∷ codes "address" ∷ []) 1
get-from_module_example = get-from_module (codes "caller" ∷ codes "address" ∷ []) 1

handle_syscall_by_id-stores_example :
    let k = counter.read_memory_into 3 (counter.reg_a1 3 % 2 ^ 32) (zeros 32) in
    let v = counter.read_memory_into 3 (counter.reg_a2 3 % 2 ^ 32) (zeros 32) in
    let (r, table', i') = handle_syscall_by_id counter SyscallId.set_storage_or_clear [] [] 3 in
    (r ≡ return_value (if bytes_eq (view [] k) (zeros 32) then u32_max else 32))
    × (view table' (8 ∷ []) ≡ set_storage_or_clear k v (view []) (8 ∷ []))
    × (i' ≡ 3)
handle_syscall_by_id-stores_example = handle_syscall_by_id-stores counter [] [] 3 tt refl (8 ∷ [])
