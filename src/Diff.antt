-- ===== src/Diff.antt =====
-- src/diff.rs: the classes that grew or shrank between two dumps.
pub mod Compute
pub mod Render
pub mod Totals
pub mod Growth
pub mod Entries
pub mod Sums
pub mod Net
