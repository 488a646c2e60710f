-- ===== src/Parser/Streaming.antt =====
-- Streaming promises of the parsers.
pub mod Fields
pub mod Gc
pub mod Bodies
pub mod Dispatch
pub mod Takes
pub mod Laws
