-- ===== src/Format.antt =====
-- The layout of a dump, written down independently of the parsers: what the JDK's and Android's
-- writers put in the file for each record. The parsers' theorems refer to it.
pub mod Fields
pub mod Gc
pub mod Top
pub mod Bodies
pub mod CpuSamples
pub mod Dump
