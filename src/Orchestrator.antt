-- ===== src/Orchestrator.antt =====
-- src/orchestrator: distributing the load, collecting the reports, and summing up the drops.
pub mod Distribute
pub mod Phases
pub mod Collect
pub mod Csv
pub mod Rows
pub mod Persist
