-- ===== src/Collector.antt =====
-- The collector package: acquisition, compression, buffering and forwarding.
pub mod Model
pub mod Compression
pub mod Buffer
pub mod Sink
pub mod Session
pub mod Pipeline
mod Tests
