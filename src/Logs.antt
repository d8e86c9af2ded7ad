-- ===== src/Logs.antt =====
-- HW4, the log pipeline: readers, dispatcher, analyzers and aggregator, which pass log entries
-- through ring buffers in shared memory.
pub mod Ring
pub mod Entry
pub mod Regions
pub mod Score
pub mod Readers
pub mod Dispatch
pub mod Args
pub mod Aggregate
mod Tests
