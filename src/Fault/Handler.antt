-- ===== src/Fault/Handler.antt =====
-- do_kern_addr_fault, do_user_addr_fault and do_page_fault.
pub mod Balance
pub mod User
use userspace_bypass.Prelude.{
  ℕ, zero, suc, ◌+◌, ◌-◌, ◌*◌, ◌/◌, ◌%◌, ◌≤◌, ◌≡◌, Bool, true, false, ◌||◌, ◌&&◌, not, Option, none,
  some, List, ◌∷◌, leb, ◌==◌, if◌then◌else◌,
}
use userspace_bypass.Regs.{Regs}
use userspace_bypass.Fault.State.{
  ErrorCode, sig_zero, sigkill, sigbus, bus_adrerr, Vma, FaultFlags, VmFault, oops, bug, mm_fault,
  out_of_fuel, Kernel, St, has_bit, note, set_world, down_read, up_read, irq_enable,
}
use userspace_bypass.Fault.Tables.{
  Verdict, handled, refused, crashed, vmalloc_fault, spurious_kernel_fault,
}
use userspace_bypass.Fault.Context.{no_context}
use userspace_bypass.Fault.Area.{
  bad_area_nosemaphore, bad_area, bad_area_access_error, mm_fault_error, access_error, is_error,
}

-- X86_EFLAGS_AC and X86_EFLAGS_IF.
abbrev pub has_ac : Regs → Bool
has_ac r = has_bit 18 r.flags

abbrev pub has_if : Regs → Bool
has_if r = has_bit 9 r.flags

module _ {W : Type 0} (k : Kernel W) where
  unfoldable pub is_vsyscall_vaddr : ℕ → Bool
  is_vsyscall_vaddr address = address / 4096 * 4096 == k.vsyscall_addr

  unfoldable pub fault_in_kernel_space : ℕ → Bool
  unfolding is_vsyscall_vaddr
  fault_in_kernel_space address =
      if is_vsyscall_vaddr address then false else leb k.task_size_max address

module _ {W : Type 0} (k : Kernel W) (e : ErrorCode) (address : ℕ) where
  -- Behind vmalloc_fault.
  unfoldable pub kern_fault_rest : St W → St W
  kern_fault_rest s =
      if spurious_kernel_fault k e address s.world
      then s
      else if k.kprobe_page_fault s.regs s.world
      then s
      else bad_area_nosemaphore k e address s

  unfoldable pub after_vmalloc_fault : Verdict W → St W → St W
  unfolding kern_fault_rest
  after_vmalloc_fault (handled w) s = set_world w s
  after_vmalloc_fault (refused w) s = kern_fault_rest (set_world w s)
  after_vmalloc_fault (crashed w) s = note bug (set_world w s)

  unfoldable pub do_kern_addr_fault : St W → St W
  unfolding after_vmalloc_fault
  do_kern_addr_fault s =
      if not (e.rsvd || (e.user || e.prot))
      then after_vmalloc_fault (vmalloc_fault k address s.world) s
      else kern_fault_rest s

  unfoldable pub count_fault : Bool → St W → St W
  count_fault true s = record s { maj_flt = suc s.maj_flt }
  count_fault false s = record s { min_flt = suc s.min_flt }

  -- handle_mm_fault has returned, and mmap_sem with it if it asks for a retry; `again` is the retry.
  unfoldable pub after_mm_fault : FaultFlags → Bool → VmFault → (St W → St W) → St W → St W
  unfolding count_fault
  after_mm_fault flags major fault again s =
      let released = up_read s in
      if fault.retry
      then if flags.allow_retry && not (k.fatal_signal_pending s.world)
        then again released
        else if flags.for_user
        then released
        else no_context k e address sigbus bus_adrerr released
      else if is_error fault
      then mm_fault_error k e address fault released
      else count_fault (major || fault.major) released

  -- The label good_area.
  unfoldable pub good_area : FaultFlags → Bool → (Bool → St W → St W) → Vma → St W → St W
  unfolding after_mm_fault
  good_area flags major again vma s =
      let (fault, w) = k.handle_mm_fault vma address flags s.world in
      if access_error k e vma s.world
      then bad_area_access_error k e address vma s
      else after_mm_fault flags major fault (again (major || fault.major))
          (note (mm_fault flags) (set_world w s))

  unfoldable pub after_expand : FaultFlags → Bool → (Bool → St W → St W) → Vma → Bool → St W → St W
  unfolding good_area
  after_expand flags major again vma true s = bad_area k e address s
  after_expand flags major again vma false s = good_area flags major again vma s

  -- The VMA that find_vma has found.
  unfoldable pub with_vma : FaultFlags → Bool → (Bool → St W → St W) → Option Vma → St W → St W
  unfolding after_expand
  with_vma flags major again none s = bad_area k e address s
  with_vma flags major again (some vma) s =
      let (failed, w) = k.expand_stack vma address s.world in
      if leb vma.vm_start address
      then good_area flags major again vma s
      else if not vma.vm_growsdown
      then bad_area k e address s
      else after_expand flags major again vma failed (set_world w s)

  -- From the label retry on, mmap_sem being held; `again` is what `goto retry` leads to.
  unfoldable pub search_vma : FaultFlags → Bool → (Bool → St W → St W) → St W → St W
  unfolding with_vma
  search_vma flags major again s = with_vma flags major again (k.find_vma address s.world) s

  -- What `goto retry` changes in the flags.
  unfoldable pub retried : FaultFlags → FaultFlags
  retried flags = record flags { allow_retry = false; tried = true }

  -- The attempts from the label retry on, mmap_sem being held; the fuel counts them.
  unfoldable pub attempt : ℕ → FaultFlags → Bool → St W → St W
  unfolding search_vma retried
  attempt zero flags major s = note out_of_fuel s
  attempt (suc n) flags major s =
      search_vma flags major (λ m t. attempt n (retried flags) m (down_read t)) s

  -- Fuel for one attempt more than there are.
  unfoldable pub attempts : FaultFlags → St W → St W
  unfolding attempt
  attempts flags s = attempt 3 flags false s

  -- Taking mmap_sem.
  unfoldable pub lock_and_search : FaultFlags → St W → St W
  unfolding attempts
  lock_and_search flags s =
      if not (k.trylock s.world)
      then if not (k.user_mode s.regs) && not (k.search_exception_tables s.regs.ip s.world)
        then bad_area_nosemaphore k e address s
        else attempts flags (down_read s)
      else attempts flags (down_read s)

  unfoldable pub after_emulation : FaultFlags → Bool × Regs × W → St W → St W
  unfolding lock_and_search
  after_emulation flags (done, r, w) s =
      let s1 = record s { regs = r; world = w } in if done then s1 else lock_and_search flags s1

  unfoldable pub first_flags : Regs → FaultFlags
  first_flags r = record {
    allow_retry = true;
    tried = false;
    for_user = k.user_mode r;
    for_write = e.write;
    for_instruction = e.instr;
  }

  -- Once the fault may be taken.
  unfoldable pub take_fault : St W → St W
  unfolding after_emulation first_flags
  take_fault s =
      let s1 = if k.user_mode s.regs || has_if s.regs then irq_enable s else s in
      let flags = first_flags s.regs in
      if is_vsyscall_vaddr k address
      then after_emulation flags (k.emulate_vsyscall e s1.regs address s1.world) s1
      else lock_and_search flags s1

  -- Behind the check of the reserved bits.
  unfoldable pub user_fault_rest : St W → St W
  unfolding take_fault
  user_fault_rest s =
      if k.smap && (not e.user && not (has_ac s.regs))
      then bad_area_nosemaphore k e address s
      else if k.faulthandler_disabled s.world || not (k.has_mm s.world)
      then bad_area_nosemaphore k e address s
      else take_fault s

  -- pgtable_bad comes back only if a notifier has stopped the oops.
  unfoldable pub do_user_addr_fault : St W → St W
  unfolding user_fault_rest
  do_user_addr_fault s =
      if k.kprobe_page_fault s.regs s.world
      then s
      else if e.rsvd
      then if k.die e s.world
        then user_fault_rest (note (oops sig_zero) s)
        else note (oops sigkill) s
      else user_fault_rest s

  unfoldable pub kmmio_fault : St W → Bool × St W
  kmmio_fault s =
      let (ret, w) = k.kmmio_handler s.regs address s.world in
      if k.is_kmmio_active s.world then (ret == 1, set_world w s) else (false, s)

  unfoldable pub after_kmmio : Bool × St W → St W
  unfolding do_kern_addr_fault do_user_addr_fault
  after_kmmio (true, s) = s
  after_kmmio (false, s) =
      if fault_in_kernel_space k address then do_kern_addr_fault s else do_user_addr_fault s

  unfoldable pub do_page_fault : St W → St W
  unfolding kmmio_fault after_kmmio
  do_page_fault s = after_kmmio (kmmio_fault s)
