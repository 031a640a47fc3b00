-- ===== src/Entry/Syscall.antt =====
-- do_syscall_64, with the hook that it calls after the syscall.
pub mod Dispatch
use userspace_bypass.Prelude.{
  ℕ, ◌+◌, ◌-◌, ◌/◌, ◌%◌, ◌^◌, ◌≡◌, Bool, true, false, ◌&&◌, Option, none, some, ltb, ◌==◌,
  if◌then◌else◌,
}
use userspace_bypass.Entry.State.{
  Kernel, St, sys_call, x32_sys_call, query, local_irq_enable, set_ax,
}
use userspace_bypass.Entry.Trace.{syscall_trace_enter}
use userspace_bypass.Entry.Exit.{syscall_return_slowpath}

-- __X32_SYSCALL_BIT of the x86-64 ABI.
abbrev pub x32_syscall_bit : ℕ
x32_syscall_bit = 2 ^ 30

unfoldable pub has_x32_bit : ℕ → Bool
has_x32_bit nr = nr / x32_syscall_bit % 2 == 1

-- The hook as it is called: none, or a function of the time of entry.
abbrev pub Hook : Type 0 → Type 0
Hook W = Option (ℕ → St W → Option (St W))

module _ {W : Type 0} where
  unfoldable pub return_ax : ℕ × St W → St W
  return_ax (ret, s) = set_ax ret s

  -- The choice of the handler for a number.
  unfoldable pub run_syscall : Kernel W → ℕ × St W → St W
  run_syscall k (nr, s) =
      if ltb nr k.nr_syscalls
      then return_ax (query k (sys_call (k.array_index_nospec nr k.nr_syscalls)) s)
      else if has_x32_bit nr && ltb (nr - x32_syscall_bit) k.x32_nr_syscalls
      then return_ax
          (query k (x32_sys_call (k.array_index_nospec (nr - x32_syscall_bit) k.x32_nr_syscalls)) s)
      else s

  unfoldable pub run_hook : Hook W → ℕ → St W → Option (St W)
  run_hook none ts s = some s
  run_hook (some zz_var) ts s = zz_var ts s

  unfoldable pub return_slowly : ℕ → Kernel W → Option (St W) → Option (St W)
  return_slowly fuel k none = none
  return_slowly fuel k (some s) = syscall_return_slowpath fuel k s

  unfoldable pub enter_number : Kernel W → ℕ → St W → ℕ × St W
  enter_number k nr s =
      if k.work_syscall_entry s.task.flags then syscall_trace_enter k s else (nr, s)

  unfoldable pub do_syscall_64 : ℕ → Kernel W → Hook W → ℕ → ℕ → St W → Option (St W)
  do_syscall_64 fuel k zz_var ts nr s =
      return_slowly fuel k
        (run_hook zz_var ts (run_syscall k (enter_number k nr (local_irq_enable s))))
