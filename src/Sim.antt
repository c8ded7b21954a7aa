-- ===== src/Sim.antt =====
-- sim: the simulator's own records.
pub mod Ledger
