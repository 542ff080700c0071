-- ===== src/VirtualUser.antt =====
-- src/virtual_user: the virtual users of a load generator.
pub mod Http
pub mod Pool
pub mod User
