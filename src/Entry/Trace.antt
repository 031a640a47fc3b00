-- ===== src/Entry/Trace.antt =====
-- do_audit_syscall_entry and syscall_trace_enter: the work before a syscall.
use userspace_bypass.Prelude.{ℕ, ◌||◌, not, List, [], ◌∷◌, ◌==◌, if◌then◌else◌, neg64}
use userspace_bypass.Regs.{Regs}
use userspace_bypass.Entry.State.{
  Flags, Arch, arch_i386, arch_x86_64, SeccompData, Kernel, St, audit_syscall_entry,
  trace_sys_enter, tracehook_report_syscall_entry, secure_computing, call, call_if, query,
}

unfoldable pub audit_regs : Arch → Regs → List ℕ
audit_regs arch_x86_64 r = r.di ∷ r.si ∷ r.dx ∷ r.r10 ∷ []
audit_regs arch_i386 r = r.bx ∷ r.cx ∷ r.dx ∷ r.si ∷ []

unfoldable pub seccomp_args : Arch → Regs → List ℕ
seccomp_args arch_x86_64 r = r.di ∷ r.si ∷ r.dx ∷ r.r10 ∷ r.r8 ∷ r.r9 ∷ []
seccomp_args arch_i386 r = r.bx ∷ r.cx ∷ r.dx ∷ r.si ∷ r.di ∷ r.bp ∷ []

unfoldable pub seccomp_data : Arch → Regs → SeccompData
seccomp_data arch r = record {
  arch = arch;
  nr = r.orig_ax;
  instruction_pointer = r.ip;
  args = seccomp_args arch r;
}

module _ {W : Type 0} where
  unfoldable pub do_audit_syscall_entry : Kernel W → Arch → St W → St W
  do_audit_syscall_entry k arch_x86_64 s =
      let r = s.task.regs in call k (audit_syscall_entry r.orig_ax r.di r.si r.dx r.r10) s
  do_audit_syscall_entry k arch_i386 s =
      let r = s.task.regs in call k (audit_syscall_entry r.orig_ax r.bx r.cx r.dx r.si) s

  -- The end of syscall_trace_enter, once ptrace and seccomp have let the syscall pass.
  unfoldable pub trace_passed : Kernel W → Arch → ℕ → St W → ℕ × St W
  trace_passed k arch ret s =
      let s1 = call_if k s.task.flags.syscall_tracepoint (trace_sys_enter s.task.regs.orig_ax) s in
      let s2 = do_audit_syscall_entry k arch s1 in
      (if ret == 0 then s2.task.regs.orig_ax else ret, s2)

  -- The result of __secure_computing.
  unfoldable pub after_seccomp : Kernel W → Arch → ℕ × St W → ℕ × St W
  after_seccomp k arch (ret, s) = if ret == neg64 1 then (ret, s) else trace_passed k arch ret s

  unfoldable pub run_seccomp : Kernel W → Flags → Arch → ℕ → St W → ℕ × St W
  run_seccomp k work arch ret s =
      if work.seccomp
      then after_seccomp k arch (query k (secure_computing (seccomp_data arch s.task.regs)) s)
      else trace_passed k arch ret s

  -- The result of tracehook_report_syscall_entry.
  unfoldable pub after_ptrace : Kernel W → Flags → Arch → ℕ × St W → ℕ × St W
  after_ptrace k work arch (ret, s) =
      if not (ret == 0) || work.syscall_emu then (neg64 1, s) else run_seccomp k work arch ret s

  -- The number of the syscall to run, or -1; `work` is the flags as they were on entry.
  unfoldable pub syscall_trace_enter : Kernel W → St W → ℕ × St W
  syscall_trace_enter k s =
      let work = s.task.flags in
      let arch = if s.task.ts_compat then arch_i386 else arch_x86_64 in
      if work.syscall_trace || work.syscall_emu
      then after_ptrace k work arch (query k tracehook_report_syscall_entry s)
      else run_seccomp k work arch 0 s
