-- ===== src/Omf.antt =====
-- The OMF path to the archive: collector/omf.py, which makes and checks messages, and
-- archive/omf_receiver.py, which writes what they carry.
pub mod Json
pub mod Message
pub mod Validate
pub mod Receiver
pub mod Rows
pub mod Agree
pub mod Transfer
pub mod Refusal
pub mod Connect
mod Tests
