-- ===== src/Tests.antt =====
-- The theorems at concrete inputs.
pub mod Access
pub mod Machines
pub mod Runs
pub mod Keys
pub mod Saves
pub mod Endpoints
pub mod Readings
