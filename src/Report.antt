-- ===== src/Report.antt =====
-- src/result_recorder.rs: what the recorder makes of its state when no more records come in.
pub mod Names
pub mod Usage
pub mod Threads
pub mod Texts
pub mod Finish
pub mod Collect
pub mod Unordered
pub mod Orderless
pub mod Labels
pub mod Descending
pub mod Rows
pub mod Duplicates
