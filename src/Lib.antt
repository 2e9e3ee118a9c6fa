-- ===== src/Lib.antt =====
-- A verification library for the Uniswap V2 contracts, the Fibonacci contract, the runners of PolkaVM and
-- revm, and the bare-metal program of this repository.
--
-- The program has two sides that meet at the host functions of pallet-revive. uniswap-rust is two
-- contracts, the pair and the factory, that run on a chain: they keep 32-byte words under 32-byte keys,
-- call the two tokens, and end by returning bytes, by a revert or by a trap. pvm runs such a contract
-- outside a chain: it answers the contract's system calls one by one, and keeps its storage in a map. It
-- also wraps revm, loads bytecode from files, and runs either side as a benchmark.
--
-- Base, with its child modules, has Boolean tests, lists, bytes, bit operations and 256-bit words.
-- Uniswap is the contracts:
--   Uniswap/Math: uniswap-rust/src/math.rs. `sqrt_u256` has as many rounds of fuel as its input is
--     large; `none` is a loop that did not end.
--   Uniswap/Host: the host functions that the contracts call. `M` passes the world (own storage and
--     the rest of the chain) along and ends in one of four ways. `>>=` stops at the first end.
--   Uniswap/Slots: uniswap-rust/src/lib.rs, the keys of slots and mappings.
--   Uniswap/Pair/State, Calls, Liquidity, Trade, Token, Dispatch: uniswap-rust/src/pair.rs, in the
--     order of the source. Each branch of `call` is a function of the selector's name; `Dispatch.call`
--     is the whole. Ledger, Approves, Moves, Spends, Product, Reserves, Lock, Release,
--     Shares and Supply hold the proofs.
--   Uniswap/Host/Ensures, Goes, Keeps: what holds after a step, that a step goes on, and what it keeps.
--   Uniswap/Pair/Identity: the words of the pair's factory and tokens, which `Keeps` follows through `call`.
--   Uniswap/Pair/Life: the pair over many calls. `Reach` is the worlds after a deployment and calls, `Calls`
--     the calls after any world; Live, Swap, First, Mint and Burn are the calls that do return, with tokens
--     that answer. Tokens says which calls those are (`Answers`), and that the pair makes them.
--   Uniswap/FirstMatch: a chain of tests of the selector as a table. Pair/Dispatch/Reaches and
--     Factory/Reaches list the functions of an entry point, and what serves each.
--   Uniswap/Factory: uniswap-rust/src/factory.rs. Registry, Entered and Created hold the proofs about the fee's
--     setter, and about the pairs before and after createPair and the calls in between.
--   Uniswap/Chain: the factory and its pairs together. `RunsPairs` says that the chain runs the pair's code
--     for the factory's calls; Initialized follows the call of `initialize`.
-- Fibonacci is fibonacci-rust/src/fibonacci.rs, a contract of one function.
-- Runner is pvm/src; first pvm/src/polkavm_runner.rs:
--   Runner/Syscall: `SyscallId`, `symbol_to_syscall_id` and `SyscallDispatchTable`.
--   Runner/Table: the map of the storage, with `IsSparse` for a map that holds no zero value
--     and no key twice.
--   Runner/Machine: what is used of `polkavm::RawInstance`, as a record of operations.
--   Runner/ById and Runner/Legacy: `handle_syscall_by_id` and `handle_syscall`.
--   Runner/Exec: `call_with_data` and its loop, on fuel. `Metered` says what bounds the loop.
--   Runner/Engine: `PolkaVmExecutor::new` and `load_module`.
-- Then the other files of pvm/src:
--   Runner/Evm: evm_runner.rs, with what it uses of revm in Chain. History performs a list of operations
--     and counts the transactions that were executed; `NonceRule` is what revm promises about nonces.
--   Runner/Loader: the loaders of main.rs. Cut is where bytecode is cut, Hex the text that is decoded.
--   Runner/Bench: the benchmarks of main.rs, each as the report that it prints.
-- BareMetal is risc/src/main.rs: its volatile writes in order. Devices is what the devices receive.
--
-- Numbers are unbounded, and the operations of a 256-bit or 32-bit integer keep the wrap-around
-- written out, as the build of the contracts does without overflow checks. Bytes are lists of numbers.
-- A storage is a function, so an absent word is 32 zero bytes, and clearing a word is writing zeros.
--
-- Parameters: Keccak-256 (the theorems about mappings assume `NoCollision`: no two inputs collide and
-- no hash begins with twelve zero bytes), the selectors and decoders that `sol!` generates, the host's
-- caller, address and time, calls of other contracts, which may change the whole world and the
-- contract's own storage, the virtual machine, revm, the file system, and the hex decoder.
--
-- Not modelled: the deployment scripts; Solidity sources; the integration tests; `print_module_info`,
-- which only prints; allocation of memory in the contracts, whose failure is a trap; messages on standard
-- error, but for what a benchmark reports.
pub mod Base
pub mod Uniswap
pub mod Fibonacci
pub mod Runner
pub mod BareMetal
