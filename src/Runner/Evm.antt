-- ===== src/Runner/Evm.antt =====
-- The wrapper of revm (pvm/src/evm_runner.rs, lines 13 to 179).
pub mod Chain
pub mod History
pub mod Once
use risc_v_rust.Base.{ℕ, ◌^◌, Option, none, some, List, [], replicate}
use risc_v_rust.Base.Bytes.{Bytes, bytes_eq, zeros}
use risc_v_rust.Runner.Evm.Chain.{
  InMemoryDb, TxKind, TxEnv, Output, ExecutionResult, success, revert, halt, Transacted, rejected,
  executed, Revm,
}
use risc_v_rust.Base.{if◌then◌else◌}

-- `CONTRACT_ADDRESS`, `CALLER_ADDRESS` and `GAS_LIMIT`.
abbrev pub contract_address : Bytes
contract_address = replicate 20 0x42

abbrev pub caller_address : Bytes
caller_address = replicate 20 0x01

abbrev pub gas_limit : ℕ
gas_limit = 300000000

pub record RevmExecutor (C X : Type 0) : Type 0 where
  pub tx_gas_limit_cap : Option ℕ
  pub db : InMemoryDb C X
  pub contract_address : Bytes

-- The `anyhow` errors.
pub data EvmError (H R : Type 0) : Type 0 where
  no_address : EvmError H R
  create_reverted : Output → EvmError H R
  create_halted : H → EvmError H R
  transaction : R → EvmError H R
  execution_reverted : ℕ → Output → EvmError H R
  execution_halted : H → ℕ → EvmError H R

-- A result, or the panic of an `unwrap`.
pub data Fallible (A H R : Type 0) : Type 0 where
  ok : A → Fallible A H R
  err : EvmError H R → Fallible A H R
  panicked : Fallible A H R

-- The transaction that `deploy_create` and `call` send, which differ in its kind and its data.
abbrev pub tx_env : TxKind → Bytes → TxEnv
tx_env kind input = record {
  caller = caller_address;
  kind = kind;
  tx_type = 0;
  gas_limit = gas_limit;
  gas_price = 1;
  value = 0;
  data_ = input;
  nonce = 0;
  chain_id = some 1;
  access_list = [];
  gas_priority_fee = none;
  blob_hashes = [];
  max_fee_per_blob_gas = 1;
  authorization_list = [];
}

module _ {C X H R : Type 0} (revm : Revm C X H R) where
  unfoldable pub new : RevmExecutor C X
  new = record {
    tx_gas_limit_cap = some gas_limit;
    db =
        revm.insert_account_info caller_address
          (record {
            balance = 10 ^ 18;
            nonce = 0;
            code_hash = zeros 32;
            account_id = none;
            code = none;
          })
          revm.empty_db;
    contract_address = contract_address;
  }

  unfoldable pub deploy : Bytes → RevmExecutor C X → Fallible (Unit {0}) H R × RevmExecutor C X
  deploy bytecode e =
      let code = revm.new_raw bytecode in
      (
        ok tt,
        record e {
          db =
              revm.insert_account_info contract_address
                (record {
                  balance = 0;
                  nonce = 1;
                  code_hash = revm.hash_slow code;
                  account_id = none;
                  code = some code;
                })
                e.db;
          contract_address = contract_address;
        },
      )

  -- The `match` of `deploy_create` on the result.
  unfoldable pub created :
      Transacted H R × InMemoryDb C X → RevmExecutor C X → Fallible Bytes H R × RevmExecutor C X
  created (rejected r, db) e = (panicked, record e { db = db })
  created (executed (success gas output), db) e = elim output.address [
    | none ↦ (err no_address, record e { db = db })
    | some addr ↦ (ok addr, record e { db = db; contract_address = addr })
  ]
  created (executed (revert gas output), db) e =
      (err (create_reverted output), record e { db = db })
  created (executed (halt reason gas), db) e = (err (create_halted reason), record e { db = db })

  -- The context is a new one over the same database.
  unfoldable pub deploy_create : Bytes → RevmExecutor C X → Fallible Bytes H R × RevmExecutor C X
  deploy_create init_bytecode e =
      created (revm.transact_commit (some gas_limit) (tx_env TxKind.create init_bytecode) e.db) e

  -- The `match` of `call` on the result.
  unfoldable pub called : Transacted H R → Fallible (ℕ × Bytes) H R
  called (rejected r) = err (transaction r)
  called (executed (success gas output)) = ok (gas, output.into_data)
  called (executed (revert gas output)) = err (execution_reverted gas output)
  called (executed (halt reason gas)) = err (execution_halted reason gas)

  unfoldable pub call : Bytes → RevmExecutor C X → Fallible (ℕ × Bytes) H R × RevmExecutor C X
  call calldata e =
      let done =
        revm.transact_commit e.tx_gas_limit_cap (tx_env (TxKind.call e.contract_address) calldata)
          e.db in
      (called done.0, record e { db = done.1 })

  -- `get_mut` on the accounts, and `clear` on the account's storage.
  unfoldable pub clear_storage : Bytes → InMemoryDb C X → InMemoryDb C X
  clear_storage address db = record db {
    accounts = λ a.
        if bytes_eq a address
        then elim (db.accounts address) [
          | none ↦ none
          | some account ↦ some (record account { storage = [] })
        ]
        else db.accounts a;
  }

  unfoldable pub reset_storage : RevmExecutor C X → RevmExecutor C X
  reset_storage e = record e { db = clear_storage e.contract_address e.db }
