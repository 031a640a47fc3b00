-- ===== src/Tests.antt =====
-- Runs of the theorems at small concrete inputs.
pub mod Data
pub mod Lkm
pub mod Daemon
pub mod Entry
pub mod Fault
pub mod Pages
pub mod Attributes
