-- ===== src/CommandLine.antt =====
-- src/args.rs and src/main.rs: what is asked for, and the two commands.
pub mod Trim
pub mod Args
pub mod Main
pub mod Laws
