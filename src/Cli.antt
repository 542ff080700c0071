-- ===== src/Cli.antt =====
-- src/cli: the addresses of the load generators on the command line.
pub mod Decimal
pub mod GeneratorAddr
