-- ===== src/Rendered.antt =====
-- src/rendered_result.rs: what the recorder hands over, and its two forms, JSON and text.
pub mod Stats
pub mod Json
pub mod Table
pub mod Memory
pub mod Widths
pub mod Tops
