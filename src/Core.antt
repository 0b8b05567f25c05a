-- ===== src/Core.antt =====
-- app/core: accounts and roles, sessions, request security and the error envelope.
pub mod Errors
pub mod Settings
pub mod Auth
pub mod Sessions
pub mod Security
pub mod Bootstrap
pub mod Tls
