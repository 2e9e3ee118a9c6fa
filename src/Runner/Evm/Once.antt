-- ===== src/Runner/Evm/Once.antt =====
-- The wrapper sends every transaction with nonce 0, so that at most one of them is executed.
use risc_v_rust.Base.{
  ℕ, zero, suc, ◌+◌, ◌-◌, ◌≤◌, ◌≡◌, refl, ap, ◌∙◌, Option, some, List, [], ◌∷◌, arith,
}
use risc_v_rust.Base.Bytes.{Bytes, bytes_eq_iff}
use risc_v_rust.Runner.Evm
use risc_v_rust.Runner.Evm.{
  RevmExecutor, EvmError, Fallible, ok, err, transaction, caller_address, contract_address, tx_env,
  created, called,
}
use risc_v_rust.Runner.Evm.Chain.{
  InMemoryDb, TxKind, Transacted, rejected, executed, success, revert, halt, Revm,
}
use risc_v_rust.Runner.Evm.History.{nonce_of, NonceRule, Op, transactions, perform, history}

-- How many transactions were executed.
sent : {H R : Type 0} → Transacted H R → ℕ
sent (rejected r) = 0
sent (executed x) = 1

module _ {C X H R : Type 0} (revm : Revm C X H R) where
  transactions-called : (t : Transacted H R) → transactions (called revm t) ≡ sent t
  unfolding transactions called sent
  transactions-called (rejected r) = refl
  transactions-called (executed (success gas output)) = refl
  transactions-called (executed (revert gas output)) = refl
  transactions-called (executed (halt reason gas)) = refl

  transactions-created :
      (t : Transacted H R) (db : InMemoryDb C X) (e : RevmExecutor C X)
      → (transactions (created revm (t, db) e).0 ≡ sent t) × ((created revm (t, db) e).1.db ≡ db)
  unfolding transactions created sent
  transactions-created (rejected r) db e = (refl, refl)
  transactions-created (executed (success gas output)) db e = ground arith
  transactions-created (executed (revert gas output)) db e = (refl, refl)
  transactions-created (executed (halt reason gas)) db e = (refl, refl)

  nonce_of-clear_storage :
      (a b : Bytes) (db : InMemoryDb C X) → nonce_of a (Evm.clear_storage revm b db) ≡ nonce_of a db
  unfolding nonce_of Evm.clear_storage
  nonce_of-clear_storage a b db = ground (arith, bytes_eq_iff a b)

  module _ (rule : NonceRule revm) where
    transact-nonce_of :
        (cap : Option ℕ) (kind : TxKind) (input : Bytes) (db : InMemoryDb C X) (n : ℕ)
        (t : Transacted H R)
        → nonce_of caller_address db ≡ some n
        → (revm.transact_commit cap (tx_env kind input) db).0 ≡ t
        → (nonce_of caller_address (revm.transact_commit cap (tx_env kind input) db).1
            ≡ some (sent t + n))
          × (sent t ≤ 1 - n)
    unfolding sent
    transact-nonce_of cap kind input db n (rejected r) h e =
        (rule.unchanged cap (tx_env kind input) db r e ∙ h ∙ ap some (omega arith), omega arith)
    transact-nonce_of cap kind input db zero (executed x) h e =
        (rule.raised cap (tx_env kind input) db x e ∙ ap some (omega arith), omega arith)
    transact-nonce_of cap kind input db (suc n) (executed x) h e =
        absurd (rule.mismatch cap (tx_env kind input) db (suc n) x h (omega arith) e)

    -- A transaction of the wrapper, when the caller's nonce is `n`.
    transact-nonce :
        (cap : Option ℕ) (kind : TxKind) (input : Bytes) (db : InMemoryDb C X) (n : ℕ)
        → nonce_of caller_address db ≡ some n
        → let done = revm.transact_commit cap (tx_env kind input) db in
          (nonce_of caller_address done.1 ≡ some (sent done.0 + n)) × (sent done.0 ≤ 1 - n)
    transact-nonce cap kind input db n h = transact-nonce_of cap kind input db n _ h refl

    perform-nonce :
        (op : Op) (e : RevmExecutor C X) (n : ℕ)
        → nonce_of caller_address e.db ≡ some n
        → let done = perform revm op e in
          (nonce_of caller_address done.1.db ≡ some (done.0 + n)) × (done.0 ≤ 1 - n)
    unfolding perform Evm.deploy Evm.deploy_create Evm.call Evm.reset_storage
    perform-nonce (Op.deploy code) e n h = (
      rule.elsewhere contract_address caller_address _ e.db (λ same. cc)
          ∙ h
          ∙ ap some (omega arith),
      omega arith,
    )
    perform-nonce (Op.deploy_create init) e n h =
        let t = revm.transact_commit (some Evm.gas_limit) (tx_env TxKind.create init) e.db in
        let done = transactions-created t.0 t.1 e in
        rw (done.0, done.1) (transact-nonce (some Evm.gas_limit) TxKind.create init e.db n h)
    perform-nonce (Op.call input) e n h =
        rw
          (transactions-called
            (revm.transact_commit e.tx_gas_limit_cap (tx_env (TxKind.call e.contract_address) input)
              e.db).0)
          (transact-nonce e.tx_gas_limit_cap (TxKind.call e.contract_address) input e.db n h)
    perform-nonce Op.reset_storage e n h = (
      nonce_of-clear_storage caller_address e.contract_address e.db ∙ h ∙ ap some (omega arith),
      omega arith,
    )

    history-nonce :
        (ops : List Op) (e : RevmExecutor C X) (n : ℕ)
        → nonce_of caller_address e.db ≡ some n
        → let done = history revm ops e in
          (nonce_of caller_address done.1.db ≡ some (done.0 + n)) × (done.0 ≤ 1 - n)
    unfolding history
    history-nonce [] e n h = (h ∙ ap some (omega arith), omega arith)
    history-nonce (op ∷ ops) e n h =
        let first = perform-nonce op e n h in
        let rest = history-nonce ops (perform revm op e).1 ((perform revm op e).0 + n) first.0 in
        (rest.0 ∙ ap some (omega arith), omega arith)

    new-nonce : nonce_of caller_address (Evm.new revm).db ≡ some 0
    unfolding Evm.new
    new-nonce = rule.inserted caller_address _ revm.empty_db

    -- However a new wrapper is used, at most one transaction is executed, when revm checks nonces.
    pub executed_once : (ops : List Op) → (history revm ops (Evm.new revm)).0 ≤ 1
    executed_once ops = (history-nonce ops (Evm.new revm) 0 new-nonce).1

    refused : (t : Transacted H R) → sent t ≤ 0 → (r : R) × (called revm t ≡ err (transaction r))
    unfolding sent called
    refused (rejected r) h = (r, refl)
    refused (executed x) h = absurd (omega arith)

    -- When revm checks nonces: once a new wrapper has had a transaction executed, every later `call` is an error of the
    -- transaction, also after `deploy` and `reset_storage`.
    pub call-refused :
        (ops : List Op) (calldata : Bytes)
        → (history revm ops (Evm.new revm)).0 ≡ 1
        → (r : R) × ((Evm.call revm calldata (history revm ops (Evm.new revm)).1).0
            ≡ err (transaction r))
    unfolding Evm.call
    call-refused ops calldata one =
        let e = (history revm ops (Evm.new revm)).1 in
        let spent = (history-nonce ops (Evm.new revm) 0 new-nonce).0 in
        let bound =
          (transact-nonce e.tx_gas_limit_cap (TxKind.call e.contract_address) calldata e.db _
            spent).1 in
        refused _ (omega (arith, bound, one))
