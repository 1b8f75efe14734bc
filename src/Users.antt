-- ===== src/Users.antt =====
-- users/: plans, billing periods, monthly usage, organizations and invitations.
pub mod Models
pub mod Plans
pub mod Periods
pub mod Usage
pub mod Organizations
mod Tests
