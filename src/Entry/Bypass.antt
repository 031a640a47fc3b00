-- ===== src/Entry/Bypass.antt =====
-- A syscall that exe_on_call (ub/zz_lkm/exe.c) makes inside a chain, against one that enters the kernel
-- through do_syscall_64 (kernel_modify/common.c).
use userspace_bypass.Prelude.{◌+◌, ◌-◌, ◌^◌, ◌%◌, ◌<◌, u64, refl, ℕ, ◌≡◌, arith, false, Option}
use userspace_bypass.Regs.{Regs}
use userspace_bypass.Lkm.Exe.{Block}
use userspace_bypass.Lkm.OnCall.{Args, Jitted, Machine, OnCall, enter_syscall, handle_syscall}
use userspace_bypass.Entry.State.{Kernel, St, sys_call, query, set_ax}
use userspace_bypass.Entry.Syscall.{has_x32_bit, return_ax, run_syscall}
use userspace_bypass.Entry.Syscall.Dispatch.{KeepsInBounds, run_syscall_cases}

abbrev pub with_regs : {W : Type 0} → Regs → St W → St W
with_regs r s = record s { task = record (s.task) { regs = r } }

-- The machine on which the module runs: the kernel's table, called with the registers that the chain
-- has built. The translated code stays a parameter.
abbrev pub kernel_machine :
    {W : Type 0}
    → Kernel W
    → (St W → ℕ)
    → (Option Block → Args → Regs → St W → Jitted (St W))
    → Machine (St W)
kernel_machine k fsbase virt_ptr = record {
  fsbase = fsbase;
  virt_ptr = virt_ptr;
  sys_call_table = λ nr r s.
      let (ret, s') = query k (sys_call nr) (with_regs r s) in
      record { ret = ret; regs = s'.task.regs; world = s' };
}

-- The task's state once the chain's syscall is done.
abbrev pub state_of : {W : Type 0} → OnCall (St W) → St W
state_of s = with_regs s.regs s.world

-- The registers e that the kernel finds after a syscall instruction, which is 2 bytes long, at the
-- registers r: SYSCALL leaves the next address in RCX and RFLAGS in R11, and the entry code keeps the number
-- in orig_ax and puts -ENOSYS into ax.
pub record IsFreshEntry (r e : Regs) : Type 0 where
  pub r15 : e.r15 ≡ r.r15
  pub r14 : e.r14 ≡ r.r14
  pub r13 : e.r13 ≡ r.r13
  pub r12 : e.r12 ≡ r.r12
  pub bp : e.bp ≡ r.bp
  pub bx : e.bx ≡ r.bx
  pub r11 : e.r11 ≡ r.flags
  pub r10 : e.r10 ≡ r.r10
  pub r9 : e.r9 ≡ r.r9
  pub r8 : e.r8 ≡ r.r8
  pub ax : e.ax ≡ 2 ^ 64 - 38
  pub cx : e.cx ≡ u64 (r.ip + 2)
  pub dx : e.dx ≡ r.dx
  pub si : e.si ≡ r.si
  pub di : e.di ≡ r.di
  pub orig_ax : e.orig_ax ≡ r.ax
  pub ip : e.ip ≡ u64 (r.ip + 2)
  pub cs : e.cs ≡ r.cs
  pub flags : e.flags ≡ r.flags
  pub sp : e.sp ≡ r.sp
  pub ss : e.ss ≡ r.ss

pub enter_syscall-IsFreshEntry : (r : Regs) → IsFreshEntry r (enter_syscall r)
unfolding enter_syscall
enter_syscall-IsFreshEntry r = record {
  r15 = refl;
  r14 = refl;
  r13 = refl;
  r12 = refl;
  bp = refl;
  bx = refl;
  r11 = refl;
  r10 = refl;
  r9 = refl;
  r8 = refl;
  ax = refl;
  cx = refl;
  dx = refl;
  si = refl;
  di = refl;
  orig_ax = refl;
  ip = refl;
  cs = refl;
  flags = refl;
  sp = refl;
  ss = refl;
}

-- There is one such.
IsFreshEntry-≡ : (r e : Regs) → IsFreshEntry r e → e ≡ enter_syscall r
unfolding enter_syscall
IsFreshEntry-≡ r e h = λ x. record {
  r15 = h.r15 x;
  r14 = h.r14 x;
  r13 = h.r13 x;
  r12 = h.r12 x;
  bp = h.bp x;
  bx = h.bx x;
  r11 = h.r11 x;
  r10 = h.r10 x;
  r9 = h.r9 x;
  r8 = h.r8 x;
  ax = h.ax x;
  cx = h.cx x;
  dx = h.dx x;
  si = h.si x;
  di = h.di x;
  orig_ax = h.orig_ax x;
  ip = h.ip x;
  cs = h.cs x;
  flags = h.flags x;
  sp = h.sp x;
  ss = h.ss x;
}

-- A number without the x32 bit, which is bit 30.
abbrev pub HasNoX32Bit : ℕ → Type 0
HasNoX32Bit nr = nr % 2 ^ 31 < 2 ^ 30

HasNoX32Bit-has_x32_bit : (nr : ℕ) → HasNoX32Bit nr → has_x32_bit nr ≡ false
unfolding has_x32_bit
HasNoX32Bit-has_x32_bit nr h = ground arith

module _ {W : Type 0} (k : Kernel W) (fsbase : St W → ℕ)
    (virt_ptr : Option Block → Args → Regs → St W → Jitted (St W)) where
  chained_fresh :
      (pos : ℕ) (s : OnCall (St W))
      → KeepsInBounds k
      → k.nr_syscalls ≡ 437
      → has_x32_bit s.regs.ax ≡ false
      → state_of (handle_syscall (kernel_machine k fsbase virt_ptr) pos s)
        ≡ run_syscall k (s.regs.ax, with_regs (enter_syscall s.regs) s.world)
  unfolding handle_syscall query return_ax set_ax
  chained_fresh pos s keeps n x =
      ground (arith, run_syscall_cases k s.regs.ax (with_regs (enter_syscall s.regs) s.world) keeps)

  -- With a kernel of 437 syscalls, whose array_index_nospec keeps an index in bounds as it is, for a
  -- number without the x32 bit, the syscall that exe_on_call makes in a chain leaves the task and the
  -- kernel as do_syscall_64 does between its entry and exit work on the registers that the SYSCALL
  -- instruction and the entry code leave: the next address in ip and cx, the flags in r11, the number
  -- in orig_ax, -ENOSYS in ax, all others as they were.
  pub chained-run_syscall :
      (pos : ℕ) (s : OnCall (St W)) (entered : Regs)
      → KeepsInBounds k
      → k.nr_syscalls ≡ 437
      → HasNoX32Bit s.regs.ax
      → IsFreshEntry s.regs entered
      → state_of (handle_syscall (kernel_machine k fsbase virt_ptr) pos s)
        ≡ run_syscall k (s.regs.ax, with_regs entered s.world)
  chained-run_syscall pos s entered keeps n x fresh =
      rw (IsFreshEntry-≡ s.regs entered fresh)
        (chained_fresh pos s keeps n (HasNoX32Bit-has_x32_bit s.regs.ax x))
