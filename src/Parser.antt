-- ===== src/Parser.antt =====
-- src/parser/: the binary format of a dump.
pub mod Primitive
pub mod GcRecord
pub mod Record
pub mod Field
pub mod GcRoot
pub mod GcDump
pub mod Body
pub mod Tags
pub mod Dispatch
pub mod LazyMany
pub mod FileHeader
pub mod Streaming
pub mod Stream
