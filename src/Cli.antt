-- ===== src/Cli.antt =====
-- pkg/cli.
pub mod Routines
pub mod Executer
