-- ===== src/Entry.antt =====
-- Kernel entry and exit, source_codes/kernel_modify/common.c (the copy of arch/x86/entry/common.c with
-- the hook `zz_var`), for x86-64 with the options of kernel_modify/.config: seccomp, compat and x32 on,
-- context tracking, lockdep and debug checks off.
pub mod State
pub mod Trace
pub mod Exit
pub mod Syscall
pub mod Compat
pub mod Bypass
pub mod Native
pub mod Paths
