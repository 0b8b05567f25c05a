-- ===== src/Hosts.antt =====
-- app/hosts: what a node observes about its own machine.
pub mod CpuList
pub mod Tree
pub mod Busy
pub mod Cpu
pub mod Route
pub mod Disks
pub mod Network
pub mod Identity
pub mod Fake
