-- ===== src/Wallbit.antt =====
-- The `wallbit` app: proposals, confirmation, execution and reconciliation of operations at the
-- Wallbit broker.
pub mod Messages
pub mod Client
pub mod Models
pub mod Limits
pub mod Decisions
pub mod Bodies
pub mod Executors
pub mod Confirm
pub mod Payload
pub mod Sync
pub mod Reconcile
pub mod Proposals
pub mod Trades
pub mod Snapshot
pub mod Portfolio
pub mod Views
pub mod System
mod Tests
