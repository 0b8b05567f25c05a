-- ===== src/Inventory.antt =====
-- app/inventory: the desired state of the machines, its validation, its text, its repository, and
-- the service over them.
pub mod Grub
pub mod Model
pub mod Discovery
pub mod Address
pub mod HostName
pub mod Validation
pub mod Renderer
pub mod Parser
pub mod Repository
pub mod Service
