-- ===== src/Uniswap/Pair.antt =====
-- The pair contract (uniswap-rust/src/pair.rs), one module for each group of its functions.
pub mod State
pub mod Calls
pub mod Abi
pub mod Liquidity
pub mod Trade
pub mod Token
pub mod Dispatch
pub mod Lock
pub mod Identity
pub mod Life
