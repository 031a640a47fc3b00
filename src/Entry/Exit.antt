-- ===== src/Entry/Exit.antt =====
-- exit_to_usermode_loop, prepare_exit_to_usermode, syscall_slow_exit_work and syscall_return_slowpath:
-- the way back to user mode. The loop goes on while other parts of the kernel leave work, so it takes
-- fuel; `none` means that the fuel ran out.
pub mod Clean
pub mod Total
use userspace_bypass.Prelude.{
  ℕ, zero, suc, Bool, true, false, ◌||◌, ◌&&◌, not, Option, none, some, if◌then◌else◌,
}
use userspace_bypass.Entry.State.{
  Flags, Task, Kernel, St, Ext, schedule, uprobe_notify_resume, klp_update_patch_state, do_signal,
  tracehook_notify_resume, rseq_handle_notify_resume, fire_user_return_notifiers,
  addr_limit_user_check, switch_fpu_return, user_enter_irqoff, mds_user_clear_cpu_buffers,
  audit_syscall_exit, trace_sys_exit, rseq_syscall, tracehook_report_syscall_exit, call, call_if,
  local_irq_enable, local_irq_disable,
}

-- `flags & EXIT_TO_USERMODE_LOOP_FLAGS`.
unfoldable pub has_exit_work : Flags → Bool
has_exit_work f =
    f.sigpending || f.notify_resume || f.uprobe || f.need_resched || f.user_return_notify
    || f.patch_pending

-- `flags & SYSCALL_EXIT_WORK_FLAGS`.
unfoldable pub has_slow_work : Flags → Bool
has_slow_work f = f.syscall_trace || f.syscall_audit || f.singlestep || f.syscall_tracepoint

module _ {W : Type 0} where
  unfoldable pub clear_notify_resume : St W → St W
  clear_notify_resume s = record s {
    task = record (s.task) { flags = record (s.task.flags) { notify_resume = false } };
  }

  unfoldable pub resume_notified : Kernel W → Bool → St W → St W
  resume_notified k true s =
      call k rseq_handle_notify_resume (call k tracehook_notify_resume (clear_notify_resume s))
  resume_notified k false s = s

  -- The body of the loop, up to the second local_irq_disable().
  unfoldable pub exit_round : Kernel W → Flags → St W → St W
  exit_round k f s =
      let s1 = local_irq_enable s in
      let s2 = call_if k f.need_resched schedule s1 in
      let s3 = call_if k f.uprobe uprobe_notify_resume s2 in
      let s4 = call_if k f.patch_pending klp_update_patch_state s3 in
      let s5 = call_if k f.sigpending do_signal s4 in
      let s6 = resume_notified k f.notify_resume s5 in
      let s7 = call_if k f.user_return_notify fire_user_return_notifiers s6 in local_irq_disable s7

  unfoldable pub exit_to_usermode_loop : ℕ → Kernel W → Flags → St W → Option (St W)
  exit_to_usermode_loop zero k f s = none
  exit_to_usermode_loop (suc fuel) k f s =
      let s' = exit_round k f s in
      let again = exit_to_usermode_loop fuel k s'.task.flags s' in
      if has_exit_work s'.task.flags then again else some s'

  unfoldable pub clear_status : St W → St W
  clear_status s = record s {
    task = record (s.task) { ts_compat = false; i386_regs_poked = false };
  }

  -- prepare_exit_to_usermode behind the loop.
  unfoldable pub finish_exit : Kernel W → St W → St W
  finish_exit k s =
      let s1 = call_if k s.task.flags.need_fpu_load switch_fpu_return s in
      call k mds_user_clear_cpu_buffers (call k user_enter_irqoff (clear_status s1))

  unfoldable pub finish_if : Kernel W → Option (St W) → Option (St W)
  finish_if k none = none
  finish_if k (some s) = some (finish_exit k s)

  unfoldable pub prepare_exit_to_usermode : ℕ → Kernel W → St W → Option (St W)
  prepare_exit_to_usermode fuel k s =
      let s1 = call k addr_limit_user_check s in
      finish_if k (
        if has_exit_work s1.task.flags
        then exit_to_usermode_loop fuel k s1.task.flags s1
        else some s1)

  unfoldable pub syscall_slow_exit_work : Kernel W → Flags → St W → St W
  syscall_slow_exit_work k f s =
      let s1 = call k audit_syscall_exit s in
      let s2 = call_if k f.syscall_tracepoint (trace_sys_exit s1.task.regs.ax) s1 in
      let step = f.singlestep && not f.syscall_emu in
      call_if k (step || f.syscall_trace) (tracehook_report_syscall_exit step) s2

  unfoldable pub slow_work_if : Kernel W → Flags → St W → St W
  slow_work_if k f s = if has_slow_work f then syscall_slow_exit_work k f s else s

  unfoldable pub syscall_return_slowpath : ℕ → Kernel W → St W → Option (St W)
  syscall_return_slowpath fuel k s =
      let f = s.task.flags in
      prepare_exit_to_usermode fuel k (local_irq_disable (slow_work_if k f (call k rseq_syscall s)))
