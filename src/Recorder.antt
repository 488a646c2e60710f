-- ===== src/Recorder.antt =====
-- src/result_recorder.rs: the recorder, which counts what the records hold.
pub mod AHashMap
pub mod Sizes
pub mod State
pub mod Records
pub mod Events
pub mod Captures
pub mod Summary
pub mod Measures
pub mod Lookups
pub mod Classes
pub mod Results
pub mod InstanceSize
pub mod Counts
pub mod SubCounts
