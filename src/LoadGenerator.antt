-- ===== src/LoadGenerator.antt =====
-- src/load_generator: the phases of a load generator.
pub mod Phases
