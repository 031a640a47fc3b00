-- ===== src/Fault/Area/Balance.antt =====
-- What the ends of a fault do to mmap_sem, and that they call handle_mm_fault no more.
use userspace_bypass.Prelude.{
  ℕ, suc, ◌+◌, ◌-◌, ◌≤◌, ◌≡◌, arith, Bool, Option, none, some, List, [], ◌∷◌,
}
use userspace_bypass.Regs.{Regs}
use userspace_bypass.Fault.State.{
  ErrorCode, Signal, sig_zero, sigsegv, sigbus, SiCode, code_zero, segv_maperr, segv_accerr,
  segv_pkuerr, bus_adrerr, Vma, VmFault, Event, force_sig_fault, force_sig_pkuerr, force_sig_mceerr,
  ub_fault_address_space, oops, bug, stack_overflow, out_of_memory, show_signal_msg, efi_recover,
  out_of_fuel, mm_fault, Kernel, St, up_read, irq_enable,
}
use userspace_bypass.Fault.Context.{
  is_signal, set_signal_archinfo, oops_now, last_chances, jump_to_handler, ask_module, after_fixup,
  try_fixup, no_context,
}
use userspace_bypass.Fault.Area.{
  send_segv, bad_area_nosemaphore_with, bad_area_nosemaphore, bad_area_with, bad_area_access_error,
  do_sigbus, mm_fault_error,
}

-- The calls of handle_mm_fault.
abbrev pub calls : List Event → ℕ
calls [] = 0
calls (mm_fault f ∷ es) = suc (calls es)
calls (force_sig_fault a b c ∷ es) = calls es
calls (force_sig_pkuerr a b ∷ es) = calls es
calls (force_sig_mceerr a b c ∷ es) = calls es
calls (oops a ∷ es) = calls es
calls (bug ∷ es) = calls es
calls (stack_overflow ∷ es) = calls es
calls (out_of_memory ∷ es) = calls es
calls (show_signal_msg ∷ es) = calls es
calls (efi_recover a ∷ es) = calls es
calls (out_of_fuel ∷ es) = calls es

-- The retries without fuel.
abbrev pub stuck : List Event → ℕ
stuck [] = 0
stuck (out_of_fuel ∷ es) = suc (stuck es)
stuck (mm_fault f ∷ es) = stuck es
stuck (force_sig_fault a b c ∷ es) = stuck es
stuck (force_sig_pkuerr a b ∷ es) = stuck es
stuck (force_sig_mceerr a b c ∷ es) = stuck es
stuck (oops a ∷ es) = stuck es
stuck (bug ∷ es) = stuck es
stuck (stack_overflow ∷ es) = stuck es
stuck (out_of_memory ∷ es) = stuck es
stuck (show_signal_msg ∷ es) = stuck es
stuck (efi_recover a ∷ es) = stuck es

-- From s to t mmap_sem is held as before, and handle_mm_fault is called at most n times, and the
-- retries end.
pub record IsBalanced {W : Type 0} (n : ℕ) (s t : St W) : Type 0 where
  pub same_held : t.held ≡ s.held
  pub few_calls : calls t.trace ≤ calls s.trace + n
  pub ends : stuck t.trace ≡ stuck s.trace

-- The same, but one lock of s is released.
pub record IsReleased {W : Type 0} (n : ℕ) (s t : St W) : Type 0 where
  pub less_held : t.held ≡ s.held - 1
  pub few_calls : calls t.trace ≤ calls s.trace + n
  pub ends : stuck t.trace ≡ stuck s.trace

module _ {W : Type 0} (k : Kernel W) (e : ErrorCode) (address : ℕ) where
  oops_now-IsBalanced : (s : St W) → IsBalanced 0 s (oops_now k e address s)
  unfolding oops_now
  oops_now-IsBalanced s = ground arith

  last_chances-IsBalanced : (s : St W) → IsBalanced 0 s (last_chances k e address s)
  unfolding last_chances oops_now
  last_chances-IsBalanced s = ground arith

  ask_module-IsBalanced :
      (o : Option (List ℕ → ℕ)) (s : St W) → IsBalanced 0 s (ask_module k e address o s)
  unfolding ask_module jump_to_handler
  ask_module-IsBalanced o s = ground (arith, last_chances-IsBalanced s)

  try_fixup-IsBalanced :
      (signal : Signal) (si_code : SiCode) (b : Bool) (o : Option Regs) (s : St W)
      → IsBalanced 0 s (try_fixup k e address signal si_code b o s)
  unfolding try_fixup after_fixup set_signal_archinfo
  try_fixup-IsBalanced signal si_code b none s =
      ask_module-IsBalanced (k.kallsyms ub_fault_address_space) s
  try_fixup-IsBalanced signal si_code b (some r) s = ground arith

  pub no_context-IsBalanced :
      (signal : Signal) (si_code : SiCode) (s : St W)
      → IsBalanced 0 s (no_context k e address signal si_code s)
  unfolding no_context
  no_context-IsBalanced signal si_code s = ground (
    arith,
    oops_now-IsBalanced s,
    try_fixup-IsBalanced signal si_code (is_signal signal)
        (k.fixup_exception s.regs e address s.world) s,
  )

  pub nosemaphore-IsBalanced :
      (pkey : ℕ) (si_code : SiCode) (s : St W)
      → IsBalanced 0 s (bad_area_nosemaphore_with k e address pkey si_code s)
  unfolding bad_area_nosemaphore_with send_segv irq_enable set_signal_archinfo
  nosemaphore-IsBalanced pkey si_code s = ground (arith, no_context-IsBalanced sigsegv si_code s)

  pub bad_area-IsReleased :
      (pkey : ℕ) (si_code : SiCode) (s : St W)
      → IsReleased 0 s (bad_area_with k e address pkey si_code s)
  unfolding bad_area_with up_read
  bad_area-IsReleased pkey si_code s =
      let b = nosemaphore-IsBalanced pkey si_code (up_read s) in
      record { less_held = b.same_held; few_calls = b.few_calls; ends = b.ends }

  pub access_error-IsReleased :
      (vma : Vma) (s : St W) → IsReleased 0 s (bad_area_access_error k e address vma s)
  unfolding bad_area_access_error
  access_error-IsReleased vma s =
      ground
        (arith, bad_area-IsReleased vma.pkey segv_pkuerr s, bad_area-IsReleased 0 segv_accerr s)

  do_sigbus-IsBalanced : (f : VmFault) (s : St W) → IsBalanced 0 s (do_sigbus k e address f s)
  unfolding do_sigbus set_signal_archinfo
  do_sigbus-IsBalanced f s = ground (arith, no_context-IsBalanced sigbus bus_adrerr s)

  pub mm_fault_error-IsBalanced :
      (f : VmFault) (s : St W) → IsBalanced 0 s (mm_fault_error k e address f s)
  unfolding mm_fault_error bad_area_nosemaphore
  mm_fault_error-IsBalanced f s = ground (
    arith,
    no_context-IsBalanced sig_zero code_zero s,
    no_context-IsBalanced sigsegv segv_maperr s,
    do_sigbus-IsBalanced f s,
    nosemaphore-IsBalanced 0 segv_maperr s,
  )
