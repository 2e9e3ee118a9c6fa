-- ===== src/Runner.antt =====
-- The host runner (pvm/src/polkavm_runner.rs), one module for each of its parts.
pub mod Syscall
pub mod Table
pub mod Machine
pub mod ById
pub mod Legacy
pub mod Exec
pub mod Engine
pub mod Evm
pub mod Loader
pub mod Bench
mod Examples
mod EvmExamples
