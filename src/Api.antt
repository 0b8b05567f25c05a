-- ===== src/Api.antt =====
-- app/api/v1: the endpoints.
pub mod Endpoint
pub mod Auth
pub mod Inventory
pub mod Runs
pub mod Trust
pub mod Node
