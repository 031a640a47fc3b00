-- ===== src/Entry/State.antt =====
-- What the entry code works on, and the kernel functions that it calls.
use userspace_bypass.Prelude.{ℕ, Bool, true, false, List, ◌∷◌, Option}
use userspace_bypass.Regs.{Regs}

-- The bits of `ti->flags` that the file names. A test against a mask is a disjunction of them; the
-- mask _TIF_WORK_SYSCALL_ENTRY, which the file only uses, is a field of `Kernel`.
pub record Flags : Type 0 where
  pub syscall_trace : Bool
  pub syscall_emu : Bool
  pub seccomp : Bool
  pub syscall_tracepoint : Bool
  pub syscall_audit : Bool
  pub singlestep : Bool
  pub sigpending : Bool
  pub notify_resume : Bool
  pub uprobe : Bool
  pub need_resched : Bool
  pub user_return_notify : Bool
  pub patch_pending : Bool
  pub need_fpu_load : Bool

-- The current task: its user registers, its flags, and two bits of `ti->status`, TS_COMPAT (which
-- in_ia32_syscall() tests) and TS_I386_REGS_POKED.
pub record Task : Type 0 where
  pub regs : Regs
  pub flags : Flags
  pub ts_compat : Bool
  pub i386_regs_poked : Bool

-- The audit architectures, and the data that seccomp filters see.
pub data Arch : Type 0 where
  arch_i386 arch_x86_64 : Arch

pub record SeccompData : Type 0 where
  pub arch : Arch
  pub nr : ℕ
  pub instruction_pointer : ℕ
  pub args : List ℕ

-- Calls of functions that stand elsewhere in the kernel, with their arguments.
pub data Ext : Type 0 where
  schedule uprobe_notify_resume klp_update_patch_state do_signal : Ext
  tracehook_notify_resume rseq_handle_notify_resume fire_user_return_notifiers : Ext
  addr_limit_user_check switch_fpu_return user_enter_irqoff mds_user_clear_cpu_buffers : Ext
  audit_syscall_entry : ℕ → ℕ → ℕ → ℕ → ℕ → Ext
  trace_sys_enter trace_sys_exit : ℕ → Ext
  audit_syscall_exit rseq_syscall : Ext
  tracehook_report_syscall_exit : Bool → Ext

-- Calls whose result is used, `read_bp` being the __get_user of do_fast_syscall_32.
pub data Ask : Type 0 where
  tracehook_report_syscall_entry : Ask
  secure_computing : SeccompData → Ask
  sys_call x32_sys_call ia32_sys_call : ℕ → Ask

-- What a called function leaves: its result, the task and the rest of the machine.
pub record Answer (W : Type 0) : Type 0 where
  pub ret : ℕ
  pub task : Task
  pub world : W

pub record After (W : Type 0) : Type 0 where
  pub task : Task
  pub world : W

-- The rest of the kernel. Interrupts are as they were when such a function returns.
pub record Kernel (W : Type 0) : Type 0 where
  pub ext : Ext → Task → W → After W
  pub ask : Ask → Task → W → Answer W
  pub get_user : ℕ → W → Option ℕ
  pub work_syscall_entry : Flags → Bool
  pub array_index_nospec : ℕ → ℕ → ℕ
  pub nr_syscalls : ℕ
  pub x32_nr_syscalls : ℕ
  pub ia32_nr_syscalls : ℕ
  pub landing_pad : W → ℕ
  pub user32_cs : ℕ
  pub user_ds : ℕ

pub data Event : Type 0 where
  did : Ext → Event
  asked : Ask → Event

-- `irqs` tells whether interrupts are on. `trace` lists the calls made, the latest first.
pub record St (W : Type 0) : Type 0 where
  pub task : Task
  pub world : W
  pub irqs : Bool
  pub trace : List Event

module _ {W : Type 0} where
  unfoldable pub call : Kernel W → Ext → St W → St W
  call k e s =
      let a = k.ext e s.task s.world in
      record s { task = a.task; world = a.world; trace = did e ∷ s.trace }

  unfoldable pub call_if : Kernel W → Bool → Ext → St W → St W
  call_if k true e s = call k e s
  call_if k false e s = s

  -- A call with a result, as the result and the state after it.
  unfoldable pub query : Kernel W → Ask → St W → ℕ × St W
  query k q s =
      let a = k.ask q s.task s.world in
      (a.ret, record s { task = a.task; world = a.world; trace = asked q ∷ s.trace })

  unfoldable pub local_irq_enable : St W → St W
  local_irq_enable s = record s { irqs = true }

  unfoldable pub local_irq_disable : St W → St W
  local_irq_disable s = record s { irqs = false }

  unfoldable pub set_ax : ℕ → St W → St W
  set_ax v s = record s { task = record (s.task) { regs = record (s.task.regs) { ax = v } } }
