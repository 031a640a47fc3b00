-- ===== src/Entry/Syscall/Dispatch.antt =====
-- Which handler do_syscall_64 runs, and what a refused syscall leaves.
use userspace_bypass.Regs.{Regs}
use userspace_bypass.Prelude.{
  refl, ◌≢◌, if◌then◌else◌, ℕ, ◌-◌, ◌≤◌, ◌<◌, ◌≡◌, ◌∙◌, arith, true, false, ◌⊎◌, neg64, ◌==◌, not,
  ◌||◌,
}
use userspace_bypass.Entry.State.{
  Flags, Kernel, St, Ask, sys_call, x32_sys_call, tracehook_report_syscall_entry, secure_computing,
  query, Arch, arch_x86_64, arch_i386,
}
use userspace_bypass.Entry.Trace.{
  seccomp_data, after_seccomp, run_seccomp, after_ptrace, syscall_trace_enter,
}
use userspace_bypass.Entry.Syscall.{
  x32_syscall_bit, has_x32_bit, return_ax, run_syscall, enter_number,
}

-- The tables are far smaller than the numbers that stand for an error.
abbrev pub HasSmallTables : {W : Type 0} → Kernel W → Type 0
HasSmallTables k = (k.nr_syscalls ≤ x32_syscall_bit) × (k.x32_nr_syscalls ≤ x32_syscall_bit)

module _ {W : Type 0} (k : Kernel W) where
  -- The number -1 has the x32 bit, and still runs no handler.
  run_syscall_refused : (s : St W) → HasSmallTables k → run_syscall k (neg64 1, s) ≡ s
  unfolding run_syscall has_x32_bit
  run_syscall_refused s h = ground arith

  after_seccomp_refused :
      (arch : Arch) (ret : ℕ) (s : St W)
      → ret ≡ neg64 1
      → after_seccomp k arch (ret, s) ≡ (neg64 1, s)
  unfolding after_seccomp
  after_seccomp_refused arch ret s e = ground arith

  run_seccomp_on :
      (work : Flags) (arch : Arch) (ret : ℕ) (s : St W)
      → work.seccomp ≡ true
      → run_seccomp k work arch ret s
        ≡ after_seccomp k arch (query k (secure_computing (seccomp_data arch s.task.regs)) s)
  unfolding run_seccomp
  run_seccomp_on work arch ret s e = rw e

  after_ptrace_refused :
      (work : Flags) (arch : Arch) (ret : ℕ) (s : St W)
      → (not (ret == 0) || work.syscall_emu) ≡ true
      → after_ptrace k work arch (ret, s) ≡ (neg64 1, s)
  unfolding after_ptrace
  after_ptrace_refused work arch ret s e = rw e

-- `Refuses k s q`: the entry work asks q about the syscall of s, and the answer is to skip it.
pub data Refuses {W : Type 0} (k : Kernel W) (s : St W) (q : Ask) : Type 0 where
  by_ptrace :
      q ≡ tracehook_report_syscall_entry
      → (s.task.flags.syscall_trace || s.task.flags.syscall_emu) ≡ true
      → (not ((query k q s).0 == 0) || s.task.flags.syscall_emu) ≡ true
      → Refuses k s q
  by_seccomp :
      q
        ≡ secure_computing
            (seccomp_data (if s.task.ts_compat then arch_i386 else arch_x86_64) s.task.regs)
      → (s.task.flags.syscall_trace || s.task.flags.syscall_emu) ≡ false
      → s.task.flags.seccomp ≡ true
      → (query k q s).0 ≡ neg64 1
      → Refuses k s q

module _ {W : Type 0} (k : Kernel W) (s : St W) where
  trace_enter_refused :
      (q : Ask) → Refuses k s q → syscall_trace_enter k s ≡ (neg64 1, (query k q s).1)
  unfolding syscall_trace_enter
  trace_enter_refused q (by_ptrace e t r) =
      rw (t, ← e) (after_ptrace_refused k s.task.flags _ (query k q s).0 (query k q s).1 r)
  trace_enter_refused q (by_seccomp e t c r) =
      let arch = if s.task.ts_compat then arch_i386 else arch_x86_64 in
      rw t (
        run_seccomp_on k s.task.flags arch 0 s c
        ∙ rw (← e) (after_seccomp_refused k arch (query k q s).0 (query k q s).1 r))

  pub refused_once :
      (nr : ℕ) (q : Ask)
      → HasSmallTables k
      → k.work_syscall_entry s.task.flags ≡ true
      → Refuses k s q
      → run_syscall k (enter_number k nr s) ≡ (query k q s).1
  unfolding enter_number
  refused_once nr q h w r =
      rw (w, trace_enter_refused q r) (run_syscall_refused k (query k q s).1 h)

-- The question that seccomp is asked about the registers of a task that entered in s.
abbrev pub seccomp_question : {W : Type 0} → St W → Regs → Ask
seccomp_question s r =
    secure_computing (seccomp_data (if s.task.ts_compat then arch_i386 else arch_x86_64) r)

-- `RefusedTo k s u`: the entry work refuses the syscall of s, in u: a tracer skips it, or seccomp refuses
-- it, of a task that has no tracer or one that lets it pass.
pub data RefusedTo {W : Type 0} (k : Kernel W) (s u : St W) : Type 0 where
  by_tracer :
      (s.task.flags.syscall_trace || s.task.flags.syscall_emu) ≡ true
      → (s.task.flags.syscall_emu ≡ true) ⊎ ((query k tracehook_report_syscall_entry s).0 ≢ 0)
      → u ≡ (query k tracehook_report_syscall_entry s).1
      → RefusedTo k s u
  by_filter :
      (s.task.flags.syscall_trace || s.task.flags.syscall_emu) ≡ false
      → s.task.flags.seccomp ≡ true
      → (query k (seccomp_question s s.task.regs) s).0 ≡ neg64 1
      → u ≡ (query k (seccomp_question s s.task.regs) s).1
      → RefusedTo k s u
  by_filter_traced :
      (t : St W)
      → s.task.flags.syscall_trace ≡ true
      → s.task.flags.syscall_emu ≡ false
      → s.task.flags.seccomp ≡ true
      → query k tracehook_report_syscall_entry s ≡ (0, t)
      → (query k (seccomp_question s t.task.regs) t).0 ≡ neg64 1
      → u ≡ (query k (seccomp_question s t.task.regs) t).1
      → RefusedTo k s u

module _ {W : Type 0} (k : Kernel W) (s : St W) where
  let_pass :
      (arch : Arch) (ret : ℕ) (t : St W)
      → ret ≡ 0
      → s.task.flags.syscall_emu ≡ false
      → after_ptrace k s.task.flags arch (ret, t) ≡ run_seccomp k s.task.flags arch ret t
  unfolding after_ptrace
  let_pass arch ret t e f = ground arith

  filtered :
      (ret : ℕ) (t : St W)
      → let q = seccomp_question s t.task.regs in
        s.task.flags.seccomp ≡ true
        → (query k q t).0 ≡ neg64 1
        → run_seccomp k s.task.flags (if s.task.ts_compat then arch_i386 else arch_x86_64) ret t
          ≡ (neg64 1, (query k q t).1)
  filtered ret t c r =
      let arch = if s.task.ts_compat then arch_i386 else arch_x86_64 in
      let q = seccomp_question s t.task.regs in
      run_seccomp_on k s.task.flags arch ret t c
      ∙ after_seccomp_refused k arch (query k q t).0 (query k q t).1 r

  trace_enter-RefusedTo : (u : St W) → RefusedTo k s u → syscall_trace_enter k s ≡ (neg64 1, u)
  unfolding syscall_trace_enter
  trace_enter-RefusedTo u (by_tracer t r e) =
      let q = query k tracehook_report_syscall_entry s in
      rw (t, e) (after_ptrace_refused k s.task.flags _ q.0 q.1 (ground arith))
  trace_enter-RefusedTo u (by_filter t c r e) = rw (t, e) (filtered 0 s c r)
  trace_enter-RefusedTo u (by_filter_traced t o f c z r e) =
      let arch = if s.task.ts_compat then arch_i386 else arch_x86_64 in
      let traced : (s.task.flags.syscall_trace || s.task.flags.syscall_emu) ≡ true = ground arith in
      rw (traced, z, e) (let_pass arch 0 t refl f ∙ filtered 0 t c r)

  -- Where a task has entry work and the tables have at most 2 ^ 30 entries, a syscall that a tracer
  -- skips on entry, or that seccomp refuses, with no tracer or after one that lets it pass, runs no
  -- handler: the task and the kernel are as after the question that was refused.
  pub refused-run_syscall :
      (nr : ℕ) (u : St W)
      → HasSmallTables k
      → k.work_syscall_entry s.task.flags ≡ true
      → RefusedTo k s u
      → run_syscall k (enter_number k nr s) ≡ u
  unfolding enter_number
  refused-run_syscall nr u h w r = rw (w, trace_enter-RefusedTo u r) (run_syscall_refused k u h)

-- array_index_nospec leaves an index in bounds as it is.
abbrev pub KeepsInBounds : {W : Type 0} → Kernel W → Type 0
KeepsInBounds k = (i n : ℕ) → i < n → k.array_index_nospec i n ≡ i

-- If array_index_nospec keeps an index in bounds as it is, do_syscall_64 takes a handler from the
-- native table at a number inside it, or from the x32 table at a number with the x32 bit inside that,
-- or runs none and changes nothing.
pub run_syscall_cases :
    {W : Type 0} (k : Kernel W) (nr : ℕ) (s : St W)
    → KeepsInBounds k
    → (nr < k.nr_syscalls) × (run_syscall k (nr, s) ≡ return_ax (query k (sys_call nr) s))
      ⊎ (k.nr_syscalls ≤ nr)
        × (nr - x32_syscall_bit < k.x32_nr_syscalls)
        × (has_x32_bit nr ≡ true)
        × (run_syscall k (nr, s) ≡ return_ax (query k (x32_sys_call (nr - x32_syscall_bit)) s))
      ⊎ (k.nr_syscalls ≤ nr)
        × ((has_x32_bit nr ≡ false) ⊎ (k.x32_nr_syscalls ≤ nr - x32_syscall_bit))
        × (run_syscall k (nr, s) ≡ s)
unfolding run_syscall
run_syscall_cases k nr s keeps =
    ground (arith, keeps nr k.nr_syscalls, keeps (nr - x32_syscall_bit) k.x32_nr_syscalls)
