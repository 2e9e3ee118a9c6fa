-- ===== src/Runner/Evm/History.antt =====
-- Uses of the wrapper one after another, and what revm promises about nonces.
use risc_v_rust.Base.{ℕ, suc, ◌+◌, ◌≡◌, ◌≢◌, Option, none, some, List, [], ◌∷◌}
use risc_v_rust.Base.Bytes.{Bytes}
use risc_v_rust.Runner.Evm
use risc_v_rust.Runner.Evm.{RevmExecutor, EvmError, transaction, Fallible, ok, err, panicked}
use risc_v_rust.Runner.Evm.Chain.{
  AccountInfo, InMemoryDb, TxEnv, ExecutionResult, rejected, executed, Revm,
}

unfoldable pub nonce_of : {C X : Type 0} → Bytes → InMemoryDb C X → Option ℕ
nonce_of a db = elim (db.accounts a) [ none ↦ none | some account ↦ some account.info.nonce ]

-- A transaction must carry its sender's nonce, and one that is executed raises it. One that is not leaves it as it
-- is. An account that is put in has the nonce it is given, and no other account changes its own.
pub record NonceRule {C X H R : Type 0} (revm : Revm C X H R) : Type 0 where
  pub inserted :
      (a : Bytes) (info : AccountInfo C) (db : InMemoryDb C X)
      → nonce_of a (revm.insert_account_info a info db) ≡ some info.nonce
  pub elsewhere :
      (a b : Bytes) (info : AccountInfo C) (db : InMemoryDb C X)
      → b ≢ a
      → nonce_of b (revm.insert_account_info a info db) ≡ nonce_of b db
  pub mismatch :
      (cap : Option ℕ) (tx : TxEnv) (db : InMemoryDb C X) (n : ℕ) (x : ExecutionResult H)
      → nonce_of tx.caller db ≡ some n
      → tx.nonce ≢ n
      → (revm.transact_commit cap tx db).0 ≢ executed x
  pub raised :
      (cap : Option ℕ) (tx : TxEnv) (db : InMemoryDb C X) (x : ExecutionResult H)
      → (revm.transact_commit cap tx db).0 ≡ executed x
      → nonce_of tx.caller (revm.transact_commit cap tx db).1 ≡ some (suc tx.nonce)
  pub unchanged :
      (cap : Option ℕ) (tx : TxEnv) (db : InMemoryDb C X) (r : R)
      → (revm.transact_commit cap tx db).0 ≡ rejected r
      → nonce_of tx.caller (revm.transact_commit cap tx db).1 ≡ nonce_of tx.caller db

pub data Op : Type 0 where
  deploy deploy_create call : Bytes → Op
  reset_storage : Op

-- How many transactions a result tells of: none if it was refused.
unfoldable pub transactions : {A H R : Type 0} → Fallible A H R → ℕ
transactions (ok a) = 1
transactions (err (transaction r)) = 0
transactions (err e) = 1
transactions panicked = 0

module _ {C X H R : Type 0} (revm : Revm C X H R) where
  -- One use: how many transactions were executed, and the wrapper afterwards.
  unfoldable pub perform : Op → RevmExecutor C X → ℕ × RevmExecutor C X
  perform (Op.deploy code) e = (0, (Evm.deploy revm code e).1)
  perform (Op.deploy_create init) e =
      let done = Evm.deploy_create revm init e in (transactions done.0, done.1)
  perform (Op.call input) e = let done = Evm.call revm input e in (transactions done.0, done.1)
  perform Op.reset_storage e = (0, Evm.reset_storage revm e)

  unfoldable pub history : List Op → RevmExecutor C X → ℕ × RevmExecutor C X
  history [] e = (0, e)
  history (op ∷ ops) e =
      let first = perform op e in let rest = history ops first.1 in (first.0 + rest.0, rest.1)
