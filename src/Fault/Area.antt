-- ===== src/Fault/Area.antt =====
-- The bad areas, do_sigbus, mm_fault_error and access_error.
pub mod Balance
use userspace_bypass.Prelude.{ℕ, Bool, true, false, ◌||◌, ◌&&◌, not, leb, if◌then◌else◌}
use userspace_bypass.Fault.State.{
  ErrorCode, sig_zero, sigsegv, sigbus, SiCode, code_zero, segv_maperr, segv_accerr, segv_pkuerr,
  bus_adrerr, bus_mceerr_ar, Vma, VmFault, force_sig_fault, force_sig_pkuerr, force_sig_mceerr, bug,
  out_of_memory, show_signal_msg, Kernel, St, note, up_read, irq_enable,
}
use userspace_bypass.Fault.Prefetch.{is_prefetch}
use userspace_bypass.Fault.Tables.{is_errata100}
use userspace_bypass.Fault.Context.{set_signal_archinfo, no_context}

unfoldable pub is_segv_pkuerr : SiCode → Bool
is_segv_pkuerr segv_pkuerr = true
is_segv_pkuerr _ = false

-- PAGE_SHIFT.
abbrev pub page_shift : ℕ
page_shift = 12

module _ {W : Type 0} (k : Kernel W) (e : ErrorCode) (address : ℕ) where
  -- `error_code |= X86_PF_PROT` for an address of the kernel.
  unfoldable pub hide_layout : ErrorCode
  hide_layout = record e { prot = e.prot || leb k.task_size_max address }

  -- The end of __bad_area_nosemaphore for a user's access.
  unfoldable pub send_segv : ℕ → SiCode → St W → St W
  send_segv pkey si_code s =
      let s1 = if k.show_unhandled_signals s.world then note show_signal_msg s else s in
      let s2 = set_signal_archinfo k hide_layout address s1 in
      let s3 = if is_segv_pkuerr si_code then note (force_sig_pkuerr address pkey) s2 else s2 in
      note (force_sig_fault sigsegv si_code address) s3

  -- `__bad_area_nosemaphore`.
  unfoldable pub bad_area_nosemaphore_with : ℕ → SiCode → St W → St W
  unfolding send_segv hide_layout
  bad_area_nosemaphore_with pkey si_code s =
      let s1 = irq_enable s in
      if k.user_mode s.regs && e.user
      then if is_prefetch k s.regs e s.world
        then s1
        else if is_errata100 k address s.regs
        then s1
        else send_segv pkey si_code s1
      else no_context k e address sigsegv si_code s

  unfoldable pub bad_area_nosemaphore : St W → St W
  bad_area_nosemaphore s = bad_area_nosemaphore_with 0 segv_maperr s

  -- `__bad_area`.
  unfoldable pub bad_area_with : ℕ → SiCode → St W → St W
  bad_area_with pkey si_code s = bad_area_nosemaphore_with pkey si_code (up_read s)

  unfoldable pub bad_area : St W → St W
  bad_area s = bad_area_with 0 segv_maperr s

  unfoldable pub bad_area_access_from_pkeys : Vma → St W → Bool
  bad_area_access_from_pkeys vma s =
      k.ospke && (e.pk || not (k.access_permitted vma e.write e.instr s.world))

  unfoldable pub bad_area_access_error : Vma → St W → St W
  bad_area_access_error vma s =
      if bad_area_access_from_pkeys vma s
      then bad_area_with vma.pkey segv_pkuerr s
      else bad_area_with 0 segv_accerr s

  unfoldable pub do_sigbus : VmFault → St W → St W
  do_sigbus fault s =
      let s1 = set_signal_archinfo k e address s in
      if not e.user
      then no_context k e address sigbus bus_adrerr s
      else if is_prefetch k s.regs e s.world
      then s
      else if fault.hwpoison || fault.hwpoison_large
      then note
          (force_sig_mceerr bus_mceerr_ar address
            (if fault.hwpoison then page_shift else fault.hindex_shift))
          s1
      else note (force_sig_fault sigbus bus_adrerr address) s1

  unfoldable pub mm_fault_error : VmFault → St W → St W
  mm_fault_error fault s =
      if k.fatal_signal_pending s.world && not e.user
      then no_context k e address sig_zero code_zero s
      else if fault.oom
      then if not e.user then no_context k e address sigsegv segv_maperr s else note out_of_memory s
      else if fault.sigbus || (fault.hwpoison || fault.hwpoison_large)
      then do_sigbus fault s
      else if fault.sigsegv
      then bad_area_nosemaphore s
      else note bug s

-- Whether the VMA forbids the access.
unfoldable pub access_error : {W : Type 0} → Kernel W → ErrorCode → Vma → W → Bool
access_error k e vma w =
    if e.pk
    then true
    else if not (k.access_permitted vma e.write e.instr w)
    then true
    else if e.write
    then not vma.vm_write
    else if e.prot
    then true
    else not (vma.vm_read || (vma.vm_exec || vma.vm_write))

-- `VM_FAULT_ERROR`.
unfoldable pub is_error : VmFault → Bool
is_error f = f.oom || (f.sigbus || (f.sigsegv || (f.hwpoison || (f.hwpoison_large || f.fallback))))
