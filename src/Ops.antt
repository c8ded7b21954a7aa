-- ===== src/Ops.antt =====
-- The ops package.
pub mod Alerts
pub mod Access
mod Tests
