-- ===== src/Uniswap.antt =====
-- The crate uniswap-rust: the pair and the factory contract, and what they share.
pub mod FirstMatch
pub mod Math
pub mod Host
pub mod Slots
pub mod Pair
pub mod Factory
pub mod Chain
mod Sample
mod Distinct
mod ChainExamples
mod Examples
mod LifeExamples
mod LiquidityExamples
mod DispatchExamples
mod FactoryExamples
