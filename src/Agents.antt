-- ===== src/Agents.antt =====
-- The `agents` app: the risk profile that the gate of the `wallbit` app reads.
pub mod Profile
pub mod DateGuard
pub mod DuplicateGuard
pub mod CurrencyGuard
mod Tests
