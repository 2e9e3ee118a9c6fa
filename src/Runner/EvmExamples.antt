-- ===== src/Runner/EvmExamples.antt =====
-- A chain that checks nonces and nothing else, and files of a few bytes, on which the theorems about the wrapper of
-- revm, the loaders and the benchmark of revm are applied.
use risc_v_rust.Base.{
  ◌++◌, ◌⊎◌, ℕ, suc, ◌≤◌, ◌≡◌, ◌≢◌, refl, Option, none, some, [], ◌∷◌, arith, ◌==◌, if◌then◌else◌,
  inr,
}
use risc_v_rust.Base.Bytes.{Bytes, bytes_eq, bytes_eq_refl, bytes_eq_ne}
use risc_v_rust.Runner.Engine.{ok}
use risc_v_rust.Runner.Loader
use risc_v_rust.Runner.Loader.{Files, is_whitespace, strip_0x, trim, split_code, load_evm_bytecode}
use risc_v_rust.Runner.Loader.Hex.{Every, load_evm_bytecode-padded}
use risc_v_rust.Runner.Loader.Cut.{BehindReturn, load_evm_bytecode-splits}
use risc_v_rust.Runner.Bench.{panicked, call_failed, bench_revm_arithmetic}
use risc_v_rust.Runner.Bench.Runs.{bench_revm_arithmetic_unprinted}
use risc_v_rust.Runner.Evm
use risc_v_rust.Runner.Evm.{err, transaction, caller_address}
use risc_v_rust.Runner.Evm.Chain.{
  DbAccount, InMemoryDb, TxEnv, ExecutionResult, Transacted, rejected, executed, success, Revm,
}
use risc_v_rust.Runner.Evm.History
use risc_v_rust.Runner.Evm.History.{nonce_of, NonceRule, Op, history}
use risc_v_rust.Runner.Evm.Once.{executed_once, call-refused}

abbrev Db : Type 0
Db = InMemoryDb Bytes (Unit {0})

abbrev put : Bytes → DbAccount Bytes → Db → Db
put a account db = record db {
  accounts = λ b. if bytes_eq b a then some account else db.accounts b;
}

abbrev raise : DbAccount Bytes → DbAccount Bytes
raise account = record account { info = record account.info { nonce = suc account.info.nonce } }

unfoldable transact : TxEnv → Db → Option (DbAccount Bytes) → Transacted (Unit {0}) (Unit {0}) × Db
transact tx db none = (rejected tt, db)
transact tx db (some account) =
    if account.info.nonce == tx.nonce
    then (
      executed (success 21000 (record { into_data = tx.data_; address = some caller_address })),
      put tx.caller (raise account) db,
    )
    else (rejected tt, db)

abbrev revm : Revm Bytes (Unit {0}) (Unit {0}) (Unit {0})
revm = record {
  empty_db = record { accounts = λ _. none; rest = tt };
  insert_account_info = λ a info db. put a (record { info = info; storage = [] }) db;
  new_raw = λ code. code;
  hash_slow = λ code. code;
  transact_commit = λ cap tx db. transact tx db (db.accounts tx.caller);
}

mismatch_of :
    (tx : TxEnv) (db : Db) (n : ℕ) (x : ExecutionResult (Unit {0}))
    (found : Option (DbAccount Bytes))
    → db.accounts tx.caller ≡ found
    → nonce_of tx.caller db ≡ some n
    → tx.nonce ≢ n
    → (transact tx db found).0 ≢ executed x
unfolding transact nonce_of
mismatch_of tx db n x none e h ne = λ r. cc
mismatch_of tx db n x (some account) e h ne = ground (arith, e, h, bytes_eq_refl tx.caller)

raised_of :
    (tx : TxEnv) (db : Db) (x : ExecutionResult (Unit {0})) (found : Option (DbAccount Bytes))
    → (transact tx db found).0 ≡ executed x
    → nonce_of tx.caller (transact tx db found).1 ≡ some (suc tx.nonce)
unfolding transact nonce_of
raised_of tx db x none e = cc
raised_of tx db x (some account) e = ground (arith, e, bytes_eq_refl tx.caller)

unchanged_of :
    (tx : TxEnv) (db : Db) (r : Unit {0}) (found : Option (DbAccount Bytes))
    → (transact tx db found).0 ≡ rejected r
    → nonce_of tx.caller (transact tx db found).1 ≡ nonce_of tx.caller db
unfolding transact nonce_of
unchanged_of tx db r none e = refl
unchanged_of tx db r (some account) e = ground (arith, e)

rule : NonceRule revm
unfolding nonce_of
rule = record {
  inserted = λ a info db. ground (arith, bytes_eq_refl a);
  elsewhere = λ a b info db ne. ground (arith, bytes_eq_ne b a ne);
  mismatch = λ cap tx db n x h ne. mismatch_of tx db n x (db.accounts tx.caller) refl h ne;
  raised = λ cap tx db x e. raised_of tx db x (db.accounts tx.caller) e;
  unchanged = λ cap tx db r e. unchanged_of tx db r (db.accounts tx.caller) e;
}

executed_once_example :
    (history revm
      (Op.deploy_create (1 ∷ []) ∷ Op.reset_storage ∷ Op.call (2 ∷ []) ∷ [])
      (Evm.new revm)).0
    ≤ 1
executed_once_example =
    executed_once revm rule (Op.deploy_create (1 ∷ []) ∷ Op.reset_storage ∷ Op.call (2 ∷ []) ∷ [])

call-refused_example :
    (r : Unit {0}) × ((Evm.call revm
        (3 ∷ [])
        (history revm (Op.deploy (1 ∷ []) ∷ Op.call (2 ∷ []) ∷ []) (Evm.new revm)).1).0
      ≡ err (transaction r))
unfolding transact history History.perform History.transactions Evm.call Evm.called Evm.deploy
    bytes_eq Evm.new
call-refused_example =
    call-refused revm rule (Op.deploy (1 ∷ []) ∷ Op.call (2 ∷ []) ∷ []) (3 ∷ []) refl

-- A file whose digits stand for the code given.
abbrev files : Bytes → Files
files full = record {
  read = λ path. ok [];
  read_to_string = λ path. ok (0x20 ∷ 0x30 ∷ 0x78 ∷ 0x36 ∷ 0x30 ∷ 0x0a ∷ []);
  hex_decode = λ text. ok full;
}

load_evm_bytecode-padded_example :
    load_evm_bytecode (files (0x60 ∷ [])) ≡ ok (split_code (0x60 ∷ []))
unfolding Every is_whitespace strip_0x
load_evm_bytecode-padded_example =
    load_evm_bytecode-padded (files (0x60 ∷ [])) (0x20 ∷ []) (0x30 ∷ 0x78 ∷ []) (0x36 ∷ 0x30 ∷ [])
      (0x0a ∷ []) (refl, tt) (refl, (refl, tt)) (refl, tt) refl (inr refl) refl

load_evm_bytecode-splits_example :
    (init : Bytes) × (runtime : Bytes) × (load_evm_bytecode (files (0x60 ∷ 1 ∷ 0xf3 ∷ 0x5b ∷ []))
      ≡ ok (init, runtime))
    × (init ++ runtime ≡ 0x60 ∷ 1 ∷ 0xf3 ∷ 0x5b ∷ [])
    × ((runtime ≡ []) ⊎ BehindReturn init)
load_evm_bytecode-splits_example =
    load_evm_bytecode-splits (files (0x60 ∷ 1 ∷ 0xf3 ∷ 0x5b ∷ []))
      (0x20 ∷ 0x30 ∷ 0x78 ∷ 0x36 ∷ 0x30 ∷ 0x0a ∷ []) (0x60 ∷ 1 ∷ 0xf3 ∷ 0x5b ∷ []) refl refl

abbrev encode_compute : ℕ → ℕ → Bytes
encode_compute a b = a ∷ b ∷ []

bench_revm_arithmetic_unprinted_example :
    (bench_revm_arithmetic (files (0x60 ∷ 1 ∷ [])) encode_compute revm ≡ panicked)
    ⊎ ((r : Unit {0}) × (bench_revm_arithmetic (files (0x60 ∷ 1 ∷ [])) encode_compute revm
          ≡ call_failed (transaction r)))
unfolding load_evm_bytecode split_code Loader.init_len Loader.after_return Loader.position_of_return
bench_revm_arithmetic_unprinted_example =
    bench_revm_arithmetic_unprinted (files (0x60 ∷ 1 ∷ [])) encode_compute revm rule (0x60 ∷ 1 ∷ [])
      refl
