-- ===== src/Regs.antt =====
-- struct pt_regs of x86-64: the user registers that a syscall entry saves. The order is that of
-- ub/zz_daemon/asm/asm_head.h, by which the translated code finds them.
use userspace_bypass.Prelude.{ℕ}

pub record Regs : Type 0 where
  pub r15 : ℕ
  pub r14 : ℕ
  pub r13 : ℕ
  pub r12 : ℕ
  pub bp : ℕ
  pub bx : ℕ
  pub r11 : ℕ
  pub r10 : ℕ
  pub r9 : ℕ
  pub r8 : ℕ
  pub ax : ℕ
  pub cx : ℕ
  pub dx : ℕ
  pub si : ℕ
  pub di : ℕ
  pub orig_ax : ℕ
  pub ip : ℕ
  pub cs : ℕ
  pub flags : ℕ
  pub sp : ℕ
  pub ss : ℕ
