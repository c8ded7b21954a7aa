-- ===== src/Engine.antt =====
-- The engine package: what is computed from the archive.
pub mod Trigger
pub mod Events
pub mod Quality
pub mod Kpi
mod Tests
