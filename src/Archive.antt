-- ===== src/Archive.antt =====
-- The archive package.
pub mod Audit
