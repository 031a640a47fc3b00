-- ===== src/Tests/Entry.antt =====
-- The kernel's entry code, with a kernel that does nothing by itself.
use userspace_bypass.Prelude.{
  ℕ, ◌≡◌, refl, arith, ◌⊎◌, Option, none, some, true, false, [], neg64, Bool, ◌+◌, ◌<◌, Bool-cases,
  sym, inl, inr,
}
use userspace_bypass.Lkm.Hash.{zz_hash}
use userspace_bypass.Lkm.OnCall.{
  OnCall, enter_syscall, handle_syscall, Args, Jitted, Machine, exe_on_call, can_run, clac, round,
  run_code, after_code, dispatch, handle_miss, report, is_legal, count_success,
}
use userspace_bypass.Lkm.Exe.{Block, normal, get_exe, exe_add, exe_init, init_slots, claim}
use userspace_bypass.Regs.{Regs}
use userspace_bypass.Entry.State.{
  Flags, Task, Kernel, St, Ask, Answer, query, local_irq_enable, local_irq_disable, call, call_if,
  Ext, After, switch_fpu_return, user_enter_irqoff, mds_user_clear_cpu_buffers, rseq_syscall,
  addr_limit_user_check, set_ax, secure_computing, arch_x86_64, schedule, uprobe_notify_resume,
  klp_update_patch_state, do_signal, tracehook_notify_resume, rseq_handle_notify_resume,
  fire_user_return_notifiers, audit_syscall_entry, audit_syscall_exit, trace_sys_enter,
  trace_sys_exit, tracehook_report_syscall_exit,
}
use userspace_bypass.Entry.Trace.{seccomp_data}
use userspace_bypass.Entry.Exit.{
  resume_notified, has_exit_work, has_slow_work, exit_round, exit_to_usermode_loop, finish_if,
  prepare_exit_to_usermode, slow_work_if, syscall_return_slowpath,
}
use userspace_bypass.Entry.Exit.Clean.{IsQuiet}
use userspace_bypass.Entry.Exit.Total.{Settles, do_syscall_64_total}
use userspace_bypass.Entry.Syscall.{
  run_hook, return_slowly, return_ax, run_syscall, enter_number, do_syscall_64,
}
use userspace_bypass.Entry.Syscall.Dispatch.{RefusedTo, seccomp_question, refused-run_syscall}
use userspace_bypass.Entry.Bypass.{
  enter_syscall-IsFreshEntry, kernel_machine, with_regs, state_of, chained-run_syscall,
}
use userspace_bypass.Entry.Native.{Native, exe_on_call-Native}
use userspace_bypass.Entry.Paths.{IsReady, IsRestorable, Returns, syscalls-IsReady}
use userspace_bypass.Tests.Data.{zero_regs, on_call}

abbrev no_flags : Flags
no_flags = record {
  syscall_trace = false;
  syscall_emu = false;
  seccomp = false;
  syscall_tracepoint = false;
  syscall_audit = false;
  singlestep = false;
  sigpending = false;
  notify_resume = false;
  uprobe = false;
  need_resched = false;
  user_return_notify = false;
  patch_pending = false;
  need_fpu_load = false;
}

-- seccomp refuses every syscall; all other questions are answered by 9.
abbrev answer : Ask → Task → ℕ → Answer ℕ
answer (secure_computing d) t w = record { ret = neg64 1; task = t; world = w }
answer q t w = record { ret = 9; task = t; world = w }

abbrev kernel : Kernel ℕ
kernel = record {
  ext = λ e t w. record { task = t; world = w };
  ask = answer;
  get_user = λ a w. some 5;
  work_syscall_entry = λ f. f.seccomp;
  array_index_nospec = λ i n. i;
  nr_syscalls = 437;
  x32_nr_syscalls = 548;
  ia32_nr_syscalls = 437;
  landing_pad = λ w. 0x999;
  user32_cs = 35;
  user_ds = 43;
}

-- A task that has called getpid, with a seccomp filter.
abbrev filtered : St ℕ
filtered = record {
  task = record {
    regs = record zero_regs { orig_ax = 39; ax = 39 };
    flags = record no_flags { seccomp = true };
    ts_compat = false;
    i386_regs_poked = false;
  };
  world = 0;
  irqs = true;
  trace = [];
}

kernel-IsQuiet : IsQuiet kernel
kernel-IsQuiet = record { fpu = λ t w. refl; enter = λ t w. refl; mds = λ t w. refl }

filter_asks : Ask
filter_asks = secure_computing (seccomp_data arch_x86_64 filtered.task.regs)

refused-run_syscall_example :
    run_syscall kernel (enter_number kernel 39 filtered)
    ≡ (query kernel (secure_computing (seccomp_data arch_x86_64 filtered.task.regs)) filtered).1
unfolding query
refused-run_syscall_example =
    refused-run_syscall kernel filtered 39
      (query kernel (seccomp_question filtered filtered.task.regs) filtered).1
      (omega arith, omega arith) refl (RefusedTo.by_filter refl refl refl refl)

-- The same task in a chain.
abbrev chained : OnCall (St ℕ)
chained = record {
  exes = on_call.exes;
  regs = filtered.task.regs;
  world = filtered;
  ac = true;
  log = [];
}

abbrev no_code : Option Block → Args → Regs → St ℕ → Jitted (St ℕ)
no_code b a r w = record { regs = r; args = a; world = w }

chained-run_syscall_example :
    state_of (handle_syscall (kernel_machine kernel (λ s. 0) no_code) 3 chained)
    ≡ run_syscall kernel (39, with_regs (enter_syscall filtered.task.regs) filtered)
chained-run_syscall_example =
    chained-run_syscall kernel (λ s. 0) no_code 3 chained (enter_syscall filtered.task.regs)
      (λ i n h. refl) refl (omega arith) (enter_syscall-IsFreshEntry filtered.task.regs)

abbrev entered : St ℕ
entered = with_regs (enter_syscall filtered.task.regs) filtered

-- The way back with one signal pending; whatever the kernel does on its way, no work is left.
abbrev signalled : Flags
signalled = record no_flags { sigpending = true }

abbrev signalling : St ℕ
signalling = record filtered { task = record (filtered.task) { flags = signalled } }

abbrev take_signal : Ext → Task → ℕ → After ℕ
take_signal switch_fpu_return t w = record { task = t; world = w }
take_signal user_enter_irqoff t w = record { task = t; world = w }
take_signal mds_user_clear_cpu_buffers t w = record { task = t; world = w }
take_signal rseq_syscall t w = record { task = t; world = w }
take_signal addr_limit_user_check t w = record { task = t; world = w }
take_signal e t w = record { task = record t { flags = no_flags }; world = w }

abbrev taking_kernel : Kernel ℕ
taking_kernel = record kernel {
  ext = take_signal;
  ask = λ q t w. record { ret = 9; task = t; world = w };
}

taking_kernel-IsQuiet : IsQuiet taking_kernel
taking_kernel-IsQuiet = record { fpu = λ t w. refl; enter = λ t w. refl; mds = λ t w. refl }

abbrev back : Option (St ℕ)
back = do_syscall_64 2 taking_kernel none 0 39 signalling

abbrev or_start : Option (St ℕ) → St ℕ
or_start none = signalling
or_start (some s) = s

comes_back : do_syscall_64 2 taking_kernel none 0 39 signalling ≡ some (or_start back)
unfolding do_syscall_64 run_hook enter_number run_syscall return_ax query return_slowly
    syscall_return_slowpath prepare_exit_to_usermode exit_to_usermode_loop finish_if call call_if
    exit_round has_exit_work local_irq_enable local_irq_disable slow_work_if has_slow_work
    resume_notified set_ax
comes_back = refl

syscalls-IsReady_example :
    IsReady (or_start back)
    × ((false ≡ false) ⊎ IsRestorable taking_kernel 0x999 (or_start back).task.regs)
syscalls-IsReady_example =
    syscalls-IsReady taking_kernel 2 signalling (or_start back) false taking_kernel-IsQuiet
      (Returns.by_syscall_64 none 0 39 comes_back)

-- Each function clears the flag that it is called for.
abbrev clear_own : Ext → Task → ℕ → After ℕ
clear_own schedule t w = record {
  task = record t { flags = record (t.flags) { need_resched = false } };
  world = w;
}
clear_own uprobe_notify_resume t w = record {
  task = record t { flags = record (t.flags) { uprobe = false } };
  world = w;
}
clear_own klp_update_patch_state t w = record {
  task = record t { flags = record (t.flags) { patch_pending = false } };
  world = w;
}
clear_own do_signal t w = record {
  task = record t { flags = record (t.flags) { sigpending = false } };
  world = w;
}
clear_own fire_user_return_notifiers t w = record {
  task = record t { flags = record (t.flags) { user_return_notify = false } };
  world = w;
}
clear_own e t w = record { task = t; world = w }

abbrev count : Bool → ℕ
count true = 1
count false = 0

abbrev flags_left : Task → ℕ → ℕ
flags_left t w =
    count t.flags.need_resched
    + count t.flags.uprobe
    + count t.flags.patch_pending
    + count t.flags.sigpending
    + count t.flags.notify_resume
    + count t.flags.user_return_notify

abbrev clearing_kernel : Kernel ℕ
clearing_kernel = record taking_kernel { ext = clear_own }

clearing_kernel-Settles : Settles clearing_kernel flags_left
clearing_kernel-Settles = record {
  call = λ e t w. either e t w;
  resched = λ t w h. rw h (omega arith);
  uprobe = λ t w h. rw h (omega arith);
  patch = λ t w h. rw h (omega arith);
  signal = λ t w h. rw h (omega arith);
  notifier = λ t w h. rw h (omega arith);
  notify = λ t w h. rw h (omega arith);
}
  where
    either :
        (e : Ext) (t : Task) (w : ℕ)
        → let a = clear_own e t w in
          (flags_left a.task a.world < flags_left t w)
          ⊎ (a.task.flags ≡ t.flags) × (flags_left a.task a.world ≡ flags_left t w)
    either tracehook_notify_resume t w = inr (refl, refl)
    either rseq_handle_notify_resume t w = inr (refl, refl)
    either addr_limit_user_check t w = inr (refl, refl)
    either switch_fpu_return t w = inr (refl, refl)
    either user_enter_irqoff t w = inr (refl, refl)
    either mds_user_clear_cpu_buffers t w = inr (refl, refl)
    either audit_syscall_exit t w = inr (refl, refl)
    either rseq_syscall t w = inr (refl, refl)
    either (audit_syscall_entry a b c d e) t w = inr (refl, refl)
    either (trace_sys_enter n) t w = inr (refl, refl)
    either (trace_sys_exit n) t w = inr (refl, refl)
    either (tracehook_report_syscall_exit b) t w = inr (refl, refl)
    either schedule t w = elim (Bool-cases t.flags.need_resched) [
      | inl h ↦ inl (rw h (omega arith))
      | inr h ↦ inr (λ x. record (t.flags) { need_resched = sym h x }, rw h (omega arith))
    ]
    either uprobe_notify_resume t w = elim (Bool-cases t.flags.uprobe) [
      | inl h ↦ inl (rw h (omega arith))
      | inr h ↦ inr (λ x. record (t.flags) { uprobe = sym h x }, rw h (omega arith))
    ]
    either klp_update_patch_state t w = elim (Bool-cases t.flags.patch_pending) [
      | inl h ↦ inl (rw h (omega arith))
      | inr h ↦ inr (λ x. record (t.flags) { patch_pending = sym h x }, rw h (omega arith))
    ]
    either do_signal t w = elim (Bool-cases t.flags.sigpending) [
      | inl h ↦ inl (rw h (omega arith))
      | inr h ↦ inr (λ x. record (t.flags) { sigpending = sym h x }, rw h (omega arith))
    ]
    either fire_user_return_notifiers t w = elim (Bool-cases t.flags.user_return_notify) [
      | inl h ↦ inl (rw h (omega arith))
      | inr h ↦ inr (λ x. record (t.flags) { user_return_notify = sym h x }, rw h (omega arith))
    ]

abbrev called : St ℕ
called = run_syscall clearing_kernel (enter_number clearing_kernel 39 (local_irq_enable signalling))

do_syscall_64_total_example :
    (t : St ℕ) × (do_syscall_64 2 clearing_kernel none 0 39 signalling ≡ some t)
unfolding run_hook run_syscall enter_number return_ax query call local_irq_enable local_irq_disable
    slow_work_if has_slow_work set_ax
do_syscall_64_total_example =
    do_syscall_64_total clearing_kernel flags_left clearing_kernel-Settles none 0 39 signalling
      called refl

-- At 0x400 the user code puts 39 into ax and comes to a syscall at 0x500.
abbrev to_syscall : Regs → Regs
to_syscall r = record r { ip = 0x500; ax = 39 }

abbrev User : St ℕ → St ℕ → Type 0
User s t = t ≡ with_regs (to_syscall s.task.regs) s

abbrev AtSyscall : St ℕ → Type 0
AtSyscall s = s.task.regs.ip ≡ 0x500

abbrev code : Option Block → Args → Regs → St ℕ → Jitted (St ℕ)
code b a r w = record { regs = to_syscall r; args = record a { arg0 = normal }; world = w }

abbrev machine : Machine (St ℕ)
machine = kernel_machine kernel (λ s. 0) code

abbrev before_chain : OnCall (St ℕ)
before_chain = record {
  exes = on_call.exes;
  regs = zero_regs;
  world = filtered;
  ac = false;
  log = [];
}

abbrev after_the_chain : OnCall (St ℕ)
after_the_chain = clac (round machine 7 before_chain)

chain_of_one : exe_on_call 2 machine 7 before_chain ≡ some after_the_chain
unfolding exe_on_call can_run get_exe zz_hash clac round run_code after_code dispatch handle_syscall
    handle_miss report enter_syscall is_legal count_success query exe_add exe_init init_slots claim
chain_of_one = refl

exe_on_call-Native_example :
    Native kernel User AtSyscall (state_of before_chain) (state_of after_the_chain)
exe_on_call-Native_example =
    exe_on_call-Native kernel User AtSyscall (λ s. 0) code 2 7 before_chain after_the_chain
      (λ i n h. refl) refl (λ i n own a r s at. (refl, λ x. (refl, omega arith))) chain_of_one
