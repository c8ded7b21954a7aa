-- ===== src/Rig.antt =====
-- The bench rig: firmware/rig_stub.py, which serves the rig's register map over Modbus, and
-- sim/bridge.py, which reads it and publishes it as OPC UA values.
pub mod Registers
pub mod Decoding
pub mod Bridge
pub mod Stub
mod Tests
