-- ===== src/Script.antt =====
-- src/script: the Lua scripts of the virtual users.
pub mod Text
pub mod Response
pub mod Lua
pub mod Method
pub mod Spec
pub mod Parser
pub mod Func
pub mod Names
pub mod Runner
