-- ===== src/Lib.antt =====
-- UserspaceBypass: system calls of hot user code without the way back to user mode. The kernel calls a
-- hook at the end of each syscall; the module behind it runs a translation of the user code that follows,
-- in the kernel, until the next syscall, and makes that syscall itself. A daemon, which reads the module's
-- table of hot sites from a sysfs file, has the code of each site translated and sends it back.
--
-- The parts, with paths from the repository's root:
--   Lkm/Hash, Lkm/Exe    source_codes/ub/zz_lkm/{stat.h,exe.h,exe.c}: zz_hash, the table `exes`, get_exe,
--                        exe_init, exe_add.
--   Lkm/OnCall           source_codes/ub/zz_lkm/exe.c: exe_on_call, the loop of translated code and
--                        syscalls (chaining).
--   Lkm/Stat             source_codes/ub/zz_lkm/stat.c: stat_init, stat_func, which finds the hot sites.
--   Lkm/Sys              source_codes/ub/zz_lkm/sys.c: sysfs_show, sysfs_store, sys_init, sys_exit.
--   Lkm/Main             source_codes/ub/zz_lkm/zz_lkm_main.c: func, the hook; zz_lkm_init, zz_lkm_exit.
--   Daemon               source_codes/ub/zz_daemon/main.c: check, write_sys, cmd_history, and the loop.
--   Protocol             write_sys against sysfs_store: a code image in packets.
--   Entry                source_codes/kernel_modify/common.c: do_syscall_64 with the hook, the 32-bit
--                        syscalls, the entry work and the way back to user mode.
--   Fault                source_codes/kernel_modify/fault.c: do_page_fault and what it calls, with the hook
--                        in no_context; source_codes/ub/zz_lkm/error_handler.h: what the module exports.
--   Pages                source_codes/kernel_modify/pageattr.c: page tables, lookup_address_in_pgd,
--                        static_protections. Below it Cpa has struct cpa_data and the memory, Split
--                        the splitting of large pages, Populate and Unmap the mapping into another pgd
--                        and its undoing, Change __change_page_attr and its loop, Flush the flushes,
--                        Requests change_page_attr_set_clr, Memory set_memory_x and its kin,
--                        DirectMap changes without aliases, Arrays arrays of pages, Spec what a page
--                        is mapped to.
--   Regs                 struct pt_regs, in the order of source_codes/ub/zz_daemon/asm/asm_head.h.
--   Prelude, Tests       shared helpers; runs at concrete inputs.
--
-- State is passed explicitly: a record for the globals of each part, a function for an array. An `int` is
-- its 32-bit pattern and an `unsigned long` is below 2 ^ 64; sums wrap as in C. A copy out of bounds and a
-- missing file are `none`.
--
-- Fuel: write_loop has a round for each byte of the file and never runs out (write_loop_total). The chain
-- of exe_on_call and the exit loop of the kernel may go on for ever; there fuel counts rounds and `none`
-- means that it ran out; Entry/Exit/Total says when the exit loop does not. The handler of a page fault
-- repeats at most once and has fuel for three rounds; running out is the event out_of_fuel
-- (Fault/Handler/Balance). __change_page_attr repeats at most twice, as there are two sizes of large
-- pages, and has fuel for three rounds; the loop of __change_page_attr_set_clr has a round for each page
-- (Pages/Change/Rounds, Pages/Change/Loop).
--
-- Page tables have four levels, the p4d folded into the pgd, and each level is one array over the index of
-- all its tables. The options are those of kernel_modify/.config: no DEBUG_PAGEALLOC, no CPA statistics.
--
-- Not modelled: what other processors do at the same time (a call of an operation is one step), but for
-- what they do to page tables while cpa_lock is free, before a round of the loop and in split_large_page,
-- which is a parameter (Platform, `between` and `meanwhile`); printk and the
-- daemon's progress texts; the translator source_codes/ub/zz_disassem, whose output is a parameter (the
-- code of a block, and the files jit.bin); the texts of an oops, and the warnings and statistics of
-- pageattr.c; the rest of the kernel, which is a parameter of Entry, Fault and Pages; the benchmarks under
-- source_codes/apps. In Lkm, set_memory_x is a parameter, as the module calls the kernel's.
pub mod Prelude
pub mod Regs
pub mod Lkm
pub mod Daemon
pub mod Protocol
pub mod Entry
pub mod Fault
pub mod Pages
pub mod Tests
