-- ===== src/Entry/Compat.antt =====
-- The 32-bit syscalls: do_syscall_32_irqs_on, do_int80_syscall_32 and do_fast_syscall_32.
use userspace_bypass.Prelude.{
  ◌*◌, ℕ, ◌+◌, ◌/◌, ◌%◌, ◌^◌, Bool, true, false, ◌&&◌, ◌||◌, not, Option, none, some, ltb, ◌==◌,
  if◌then◌else◌, u32, neg64,
}
use userspace_bypass.Entry.State.{
  Kernel, St, ia32_sys_call, query, local_irq_enable, local_irq_disable, set_ax,
}
use userspace_bypass.Entry.Trace.{syscall_trace_enter}
use userspace_bypass.Entry.Exit.{syscall_return_slowpath, prepare_exit_to_usermode}
use userspace_bypass.Entry.Syscall.{return_ax}

-- X86_EFLAGS_RF and X86_EFLAGS_TF, bits 16 and 8 of EFLAGS.
unfoldable pub has_rf_or_tf : ℕ → Bool
has_rf_or_tf flags = flags / 2 ^ 16 % 2 == 1 || flags / 2 ^ 8 % 2 == 1

module _ {W : Type 0} where
  unfoldable pub set_compat : St W → St W
  set_compat s = record s { task = record (s.task) { ts_compat = true } }

  -- The number is an `unsigned int`.
  unfoldable pub run_syscall_32 : Kernel W → ℕ × St W → St W
  run_syscall_32 k (nr, s) =
      if ltb (u32 nr) k.ia32_nr_syscalls
      then return_ax (query k (ia32_sys_call (k.array_index_nospec (u32 nr) k.ia32_nr_syscalls)) s)
      else s

  unfoldable pub do_syscall_32_irqs_on : ℕ → Kernel W → St W → Option (St W)
  do_syscall_32_irqs_on fuel k s =
      let nr = s.task.regs.orig_ax in
      let s1 = set_compat s in
      syscall_return_slowpath fuel k (
        run_syscall_32 k
          (if k.work_syscall_entry s1.task.flags then syscall_trace_enter k s1 else (nr, s1)))

  unfoldable pub do_int80_syscall_32 : ℕ → Kernel W → St W → Option (St W)
  do_int80_syscall_32 fuel k s = do_syscall_32_irqs_on fuel k (local_irq_enable s)

  unfoldable pub set_ip : ℕ → St W → St W
  set_ip v s = record s { task = record (s.task) { regs = record (s.task.regs) { ip = v } } }

  -- __get_user writes 32 bits of the saved RBP.
  unfoldable pub set_bp32 : ℕ → St W → St W
  set_bp32 v s = record s {
    task = record (s.task) {
      regs = record (s.task.regs) { bp = s.task.regs.bp / 2 ^ 32 * 2 ^ 32 + u32 v };
    };
  }

  -- 1 allows SYSRETL, 0 asks for IRET.
  unfoldable pub can_sysret : Kernel W → ℕ → St W → Bool
  can_sysret k landing_pad s =
      let r = s.task.regs in
      r.cs == k.user32_cs
      && (r.ss == k.user_ds && (r.ip == landing_pad && not (has_rf_or_tf r.flags)))

  unfoldable pub with_result : Bool → Option (St W) → Option (Bool × St W)
  with_result b none = none
  with_result b (some s) = some (b, s)

  unfoldable pub with_sysret : Kernel W → ℕ → Option (St W) → Option (Bool × St W)
  with_sysret k landing_pad none = none
  with_sysret k landing_pad (some s) = some (can_sysret k landing_pad s, s)

  unfoldable pub fast_call : ℕ → Kernel W → ℕ → Option ℕ → St W → Option (Bool × St W)
  fast_call fuel k landing_pad none s =
      with_result false (prepare_exit_to_usermode fuel k (set_ax (neg64 14) (local_irq_disable s)))
  fast_call fuel k landing_pad (some bp) s =
      with_sysret k landing_pad (do_syscall_32_irqs_on fuel k (set_bp32 bp s))

  unfoldable pub do_fast_syscall_32 : ℕ → Kernel W → St W → Option (Bool × St W)
  do_fast_syscall_32 fuel k s =
      let landing_pad = k.landing_pad s.world in
      let s1 = local_irq_enable (set_ip landing_pad s) in
      fast_call fuel k landing_pad (k.get_user (u32 s1.task.regs.sp) s1.world) s1
