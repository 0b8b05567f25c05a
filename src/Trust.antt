-- ===== src/Trust.antt =====
-- app/trust: the SSH trust of the machine.
pub mod Relations
pub mod AuthorizedKeys
pub mod Service
pub mod KnownHosts
pub mod Keys
