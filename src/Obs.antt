-- ===== src/Obs.antt =====
-- crates/common-obs: metrics and logs, which every service writes.
pub mod Floats
pub mod Histogram
pub mod Labels
pub mod Vectors
pub mod Registry
pub mod Log
pub mod Trace
mod Tests
