-- ===== src/Lkm.antt =====
-- The loadable kernel module, source_codes/ub/zz_lkm.
pub mod Hash
pub mod Exe
pub mod Sys
pub mod OnCall
pub mod Stat
pub mod Main
