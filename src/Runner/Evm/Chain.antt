-- ===== src/Runner/Evm/Chain.antt =====
-- What the wrapper of revm (pvm/src/evm_runner.rs) uses of the crate: its types, and an executor of transactions.
use risc_v_rust.Base.{ℕ, Option, List}
use risc_v_rust.Base.Bytes.{Bytes}

-- `AccountInfo` of revm, with the code of a type of its own.
pub record AccountInfo (C : Type 0) : Type 0 where
  pub balance : ℕ
  pub nonce : ℕ
  pub code_hash : Bytes
  pub account_id : Option ℕ
  pub code : Option C

-- `DbAccount`, and of `InMemoryDB` the map of its accounts, with whatever else it keeps.
pub record DbAccount (C : Type 0) : Type 0 where
  pub info : AccountInfo C
  pub storage : List (ℕ × ℕ)

pub record InMemoryDb (C X : Type 0) : Type 0 where
  pub accounts : Bytes → Option (DbAccount C)
  pub rest : X

pub data TxKind : Type 0 where
  create : TxKind
  call : Bytes → TxKind

pub record TxEnv : Type 0 where
  pub caller : Bytes
  pub kind : TxKind
  pub tx_type : ℕ
  pub gas_limit : ℕ
  pub gas_price : ℕ
  pub value : ℕ
  pub data_ : Bytes
  pub nonce : ℕ
  pub chain_id : Option ℕ
  pub access_list : List Bytes
  pub gas_priority_fee : Option ℕ
  pub blob_hashes : List Bytes
  pub max_fee_per_blob_gas : ℕ
  pub authorization_list : List Bytes

-- `Output`, by what `into_data` and `address` give of it, and `ExecutionResult`, where gas is what `used` gives
-- and a reason is of a type of its own.
pub record Output : Type 0 where
  pub into_data : Bytes
  pub address : Option Bytes

pub data ExecutionResult (H : Type 0) : Type 0 where
  success revert : ℕ → Output → ExecutionResult H
  halt : H → ℕ → ExecutionResult H

-- What `transact_commit` returns: an `Err` for a transaction that was not executed.
pub data Transacted (H R : Type 0) : Type 0 where
  rejected : R → Transacted H R
  executed : ExecutionResult H → Transacted H R

-- What the wrapper uses of revm. A transaction runs under a cap on gas.
pub record Revm (C X H R : Type 0) : Type 0 where
  pub empty_db : InMemoryDb C X
  pub insert_account_info : Bytes → AccountInfo C → InMemoryDb C X → InMemoryDb C X
  pub new_raw : Bytes → C
  pub hash_slow : C → Bytes
  pub transact_commit : Option ℕ → TxEnv → InMemoryDb C X → Transacted H R × InMemoryDb C X
