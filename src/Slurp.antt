-- ===== src/Slurp.antt =====
-- src/slurp.rs and src/prefetch_reader.rs: the way from the file to the recorder.
pub mod Header
pub mod Prefetch
pub mod Recordable
pub mod Pipeline
