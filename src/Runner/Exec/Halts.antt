-- ===== src/Runner/Exec/Halts.antt =====
-- A call ends, and leaves a storage without zero values.
use risc_v_rust.Base.{
  ℕ, zero, suc, ◌+◌, ◌<◌, ◌≡◌, refl, ◌∙◌, Bool, true, false, Option, none, some, List, arith,
  Option-cases, inl, inr, if◌then◌else◌,
}
use native.Mathlib.Nat.{suc-add}
use risc_v_rust.Base.Bytes.{Bytes}
use risc_v_rust.Runner.Table.{Table}
use risc_v_rust.Runner.Table.View.{IsSparse, set_or_clear-IsSparse}
use risc_v_rust.Runner.Syscall.{SyscallId, from_module, get}
use risc_v_rust.Runner.Machine.{
  InterruptKind, Machine, SyscallResult, ExecOutcome, continue, return_value, terminate,
}
use risc_v_rust.Runner.ById.{dispatch, handle_syscall_by_id}
use risc_v_rust.Runner.Exec.{
  Module, CallResult, RunError, err, Pass, again, failed, break, after_syscall, on_interrupt, pass,
  after_pass, execution_loop, call_with_dispatch_table, call_with_data, find_call, gas_limit,
  result,
}

-- What gas metering promises: a number that every run lowers which hands control back for more, and
-- that the host's own accesses to memory and registers leave as it is.
pub record Metered {I : Type 0} (m : Machine I) (left : I → ℕ) : Type 0 where
  pub step : (i j : I) → m.run i ≡ (some InterruptKind.step, j) → left j < left i
  pub ecalli :
      (i j : I) (idx : ℕ) → m.run i ≡ (some (InterruptKind.ecalli idx), j) → left j < left i
  pub write : (i : I) (p : ℕ) (b : Bytes) → left (m.write_memory p b i) ≡ left i
  pub zero : (i : I) (p n : ℕ) → left (m.zero_memory p n i) ≡ left i
  pub set : (i : I) (v : ℕ) → left (m.set_reg_a0 v i) ≡ left i

module _ {I : Type 0} (m : Machine I) (left : I → ℕ) (metered : Metered m left) where
  write-left : (p : ℕ) (b : Bytes) (i : I) → left (m.write_memory p b i) ≡ left i
  write-left p b i = metered.write i _ _

  copy-left :
      (past short : Bool) (p n q k : ℕ) (b : Bytes) (i : I)
      → left (
          if past
          then m.zero_memory p n i
          else if short
          then m.zero_memory q k (m.write_memory p b i)
          else m.write_memory p b i)
        ≡ left i
  copy-left true short p n q k b i = metered.zero i _ _
  copy-left false true p n q k b i = metered.zero _ _ _ ∙ metered.write i _ _
  copy-left false false p n q k b i = metered.write i _ _

  -- A system call keeps the table sparse, and does not touch the meter.
  dispatch-keeps :
      (id : SyscallId) (a0 a1 a2 : ℕ) (calldata : Bytes) (table : Table) (i : I)
      → IsSparse table
      → IsSparse ((dispatch m id a0 a1 a2 calldata table i).1)
        × (left ((dispatch m id a0 a1 a2 calldata table i).2) ≡ left i)
  unfolding dispatch
  dispatch-keeps SyscallId.call_data_copy a0 a1 a2 calldata table i h = (h, search copy-left)
  dispatch-keeps SyscallId.set_storage_or_clear a0 a1 a2 calldata table i h =
      (search set_or_clear-IsSparse, refl)
  dispatch-keeps SyscallId.call_data_size a0 a1 a2 calldata table i h = (h, refl)
  dispatch-keeps SyscallId.seal_return a0 a1 a2 calldata table i h = (h, refl)
  dispatch-keeps SyscallId.consume_all_gas a0 a1 a2 calldata table i h = (h, refl)
  dispatch-keeps SyscallId.set_immutable_data a0 a1 a2 calldata table i h = (h, refl)
  dispatch-keeps SyscallId.return_data_size a0 a1 a2 calldata table i h = (h, refl)
  dispatch-keeps SyscallId.ref_time_left a0 a1 a2 calldata table i h = (h, refl)
  dispatch-keeps SyscallId.unknown a0 a1 a2 calldata table i h = (h, refl)
  dispatch-keeps _ a0 a1 a2 calldata table i h = (h, search write-left)

  -- What is asked of a pass: the table stays sparse, and asking for another pass lowers the meter.
  abbrev Keeps : I → Pass × Table × I → Type 0
  Keeps i (p, t, j) = IsSparse t × (p ≡ again → left j < left i)

  after_syscall-Keeps :
      (i j : I)
      → left j < left i
      → (r : SyscallResult × Table × I) → IsSparse (r.1)
      → left (r.2) ≡ left j
      → Keeps i (after_syscall m r)
  unfolding after_syscall
  after_syscall-Keeps i j l (continue, t, k) h e = (h, λ _. omega arith)
  after_syscall-Keeps i j l (return_value v, t, k) h e = (h, λ _. rw (metered.set k v, e) l)
  after_syscall-Keeps i j l (terminate f d, t, k) h e = (h, λ q. cc)

  on_interrupt-Keeps :
      (ids : List SyscallId) (calldata : Bytes) (table : Table) (i : I)
      (r : Option InterruptKind × I)
      → m.run i ≡ r
      → IsSparse table
      → Keeps i (on_interrupt m ids calldata table r)
  unfolding on_interrupt handle_syscall_by_id
  on_interrupt-Keeps ids calldata table i (none, j) e h = (h, λ q. cc)
  on_interrupt-Keeps ids calldata table i (some InterruptKind.finished, j) e h = (h, λ q. cc)
  on_interrupt-Keeps ids calldata table i (some InterruptKind.trap, j) e h = (h, λ q. cc)
  on_interrupt-Keeps ids calldata table i (some InterruptKind.not_enough_gas, j) e h = (h, λ q. cc)
  on_interrupt-Keeps ids calldata table i (some InterruptKind.segfault, j) e h = (h, λ q. cc)
  on_interrupt-Keeps ids calldata table i (some InterruptKind.step, j) e h =
      (h, λ _. metered.step i j e)
  on_interrupt-Keeps ids calldata table i (some (InterruptKind.ecalli idx), j) e h =
      let kept =
        dispatch-keeps (get ids idx) (m.reg_a0 j) (m.reg_a1 j) (m.reg_a2 j) calldata table j h in
      after_syscall-Keeps i j (metered.ecalli i j idx e)
        (dispatch m (get ids idx) (m.reg_a0 j) (m.reg_a1 j) (m.reg_a2 j) calldata table j) (kept.0)
        (kept.1)

  pass-Keeps :
      (ids : List SyscallId) (calldata : Bytes) (table : Table) (i : I)
      → IsSparse table
      → Keeps i (pass m ids calldata table i)
  unfolding pass
  pass-Keeps ids calldata table i h = on_interrupt-Keeps ids calldata table i (m.run i) refl h

  -- A loop that ends, the same way with more fuel, and leaves the table sparse.
  abbrev Ends : ℕ → List SyscallId → Bytes → Table → I → Type 0
  Ends fuel ids calldata table i =
      (outcome : Option ExecOutcome) × (t : Table) × (j : I) × ((extra : ℕ)
        → execution_loop m (fuel + extra) ids calldata table i ≡ some (outcome, t, j))
      × IsSparse t

  after_pass-Ends :
      (fuel : ℕ) (ids : List SyscallId) (calldata : Bytes) (table : Table) (i : I)
      → ((t : Table) (j : I) → left j < left i → IsSparse t → Ends fuel ids calldata t j)
      → (p : Pass × Table × I) → pass m ids calldata table i ≡ p
      → Keeps i p
      → Ends (suc fuel) ids calldata table i
  unfolding execution_loop after_pass
  after_pass-Ends fuel ids calldata table i next (again, t, j) e k =
      let (o, u, z, runs, sparse) = next t j (k.1 refl) (k.0) in
      (o, u, z, (λ extra. rw suc-add (rw e (runs extra))), sparse)
  after_pass-Ends fuel ids calldata table i next (failed, t, j) e k =
      (none, t, j, (λ extra. rw suc-add (rw e refl)), k.0)
  after_pass-Ends fuel ids calldata table i next (break o, t, j) e k =
      (some o, t, j, (λ extra. rw suc-add (rw e refl)), k.0)

  -- The loop ends with the fuel of the meter.
  execution_loop-Ends :
      (fuel : ℕ) (ids : List SyscallId) (calldata : Bytes) (table : Table) (i : I)
      → left i < fuel
      → IsSparse table
      → Ends fuel ids calldata table i
  execution_loop-Ends zero ids calldata table i l h = absurd (omega arith)
  execution_loop-Ends (suc fuel) ids calldata table i l h =
      after_pass-Ends fuel ids calldata table i
        (λ t j lower. execution_loop-Ends fuel ids calldata t j (omega arith))
        (pass m ids calldata table i) refl (pass-Keeps ids calldata table i h)

  -- On a machine whose runs are metered, from a sparse storage, with more fuel than the meter has at
  -- the call's entry: the call has a result, the same with any more fuel, and whatever the result is, an
  -- error too, the storage afterwards holds no zero value and no key twice.
  pub call_with_data-ends :
      (mod_ : Module I) (calldata : Bytes) (table : Table) (fuel : ℕ)
      → ((pc : ℕ) (i : I)
          → find_call (mod_.exports) ≡ some pc
          → mod_.instantiate ≡ some i
          → left (m.prepare_call pc (m.set_gas gas_limit i)) < fuel)
      → IsSparse table
      → (r : CallResult) × (t : Table) × ((extra : ℕ)
          → call_with_data m (fuel + extra) mod_ calldata table ≡ some (r, t))
        × IsSparse t
  unfolding call_with_data call_with_dispatch_table
  call_with_data-ends mod_ calldata table fuel enough h =
      elim (Option-cases (find_call (mod_.exports))) [
        | inl e ↦ (
          err RunError.no_call_export,
          table,
          (λ extra. rw (e, call_with_dispatch_table) refl),
          h,
        )
        | inr (pc, e) ↦ elim (Option-cases (mod_.instantiate)) [
          | inl f ↦ (
            err RunError.not_instantiated,
            table,
            (λ extra. rw (e, call_with_dispatch_table) (rw f refl)),
            h,
          )
          | inr (i, f) ↦
              let (o, t, j, runs, sparse) =
                execution_loop-Ends fuel (from_module (mod_.imports)) calldata table
                  (m.prepare_call pc (m.set_gas gas_limit i)) (enough pc i e f) h in
              (
                result m o j,
                t,
                (λ extra. rw (e, call_with_dispatch_table) (rw f (rw (runs extra) refl))),
                sparse,
              )
        ]
      ]
