-- ===== src/Fault.antt =====
-- Page faults, source_codes/kernel_modify/fault.c (the copy of arch/x86/mm/fault.c that asks the module
-- about faults of translated code), for x86-64 with the options of kernel_modify/.config: the 32-bit
-- parts, vm86 and the F00F bug are off. Tracepoints, performance events and printed texts are left out.
pub mod State
pub mod Prefetch
pub mod Tables
pub mod Context
pub mod Area
pub mod Access
pub mod Handler
