-- ===== src/Daemon.antt =====
-- The user-space daemon, source_codes/ub/zz_daemon/main.c.
-- `none` is a fault: a NULL stream, or a write past the end of `records` or `cmd_hist`. Console output
-- is left out, but for the warning that is given once. What a jit.bin holds is a parameter, by the
-- commands run so far, since the compiler (zz_disassem) writes it.
pub mod WriteSys
pub mod Text
pub mod Check
