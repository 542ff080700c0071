-- ===== src/Config.antt =====
-- src/config: the configuration of a load test.
pub mod Profile
