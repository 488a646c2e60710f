-- ===== src/Utils.antt =====
-- src/utils.rs: dates and sizes as text.
pub mod Tables
pub mod Civil
pub mod Timestamp
pub mod Dates
pub mod PrettySize
