-- ===== src/Tests.antt =====
-- The theorems at concrete inputs, and runs of the parsers, over the reference nom.
pub mod Parsing
pub mod Recording
pub mod Slurping
pub mod Sizing
pub mod Rendering
pub mod Diffing
pub mod Reporting
pub mod Commands
