-- ===== src/Tests.antt =====
-- The theorems at concrete inputs.
mod Wire
mod Arrivals
mod Reports
mod Rounds
mod Users
mod Dispatching
mod Scripts
mod Visits
mod Files
mod Addresses
mod LoadTests
mod Profiles
