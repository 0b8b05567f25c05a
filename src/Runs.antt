-- ===== src/Runs.antt =====
-- app/runs: the playbooks, their progress, their artefacts, and how they are launched.
pub mod Models
pub mod Progress
pub mod Catalogue
pub mod Store
pub mod Adapter
pub mod Availability
pub mod Variables
pub mod Service
pub mod Execution
pub mod Fake
