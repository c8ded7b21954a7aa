-- ===== src/Collector/Compression.antt =====
-- collector/compression.py: two-stage compression. The definitions stand in Filter (stage one),
-- Door (stage two) and TwoStage (both, and the statistics).
pub mod Slope
pub mod Filter
pub mod Door
pub mod TwoStage
pub mod Order
pub mod Selection
pub mod Last
pub mod Flush
pub mod Forced
pub mod Linked
pub mod Exceptions
pub mod Bound
