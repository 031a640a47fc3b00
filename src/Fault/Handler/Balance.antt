-- ===== src/Fault/Handler/Balance.antt =====
-- mmap_sem is released on every path of the fault handler, and handle_mm_fault is called at most twice.
use userspace_bypass.Prelude.{
  ℕ, suc, ◌≡◌, refl, arith, Bool, true, false, Option, none, some, ◌||◌, ◌==◌, if◌then◌else◌,
  Bool-cases, inl, inr,
}
use userspace_bypass.Fault.State.{
  ErrorCode, sig_zero, sigbus, segv_maperr, bus_adrerr, set_world, Vma, FaultFlags, VmFault, oops,
  mm_fault, Kernel, St, note, down_read, up_read, irq_enable,
}
use userspace_bypass.Fault.Tables.{Verdict, handled, refused, crashed, vmalloc_fault}
use userspace_bypass.Fault.Area.{bad_area_nosemaphore, bad_area}
use userspace_bypass.Fault.Handler.{
  kern_fault_rest, after_vmalloc_fault, do_kern_addr_fault, count_fault, after_mm_fault, good_area,
  after_expand, with_vma, search_vma, attempt, retried, attempts, lock_and_search, after_emulation,
  take_fault, user_fault_rest, do_user_addr_fault, fault_in_kernel_space, first_flags, has_if,
  kmmio_fault, after_kmmio, do_page_fault,
}
use userspace_bypass.Fault.Area.Balance.{
  IsBalanced, IsReleased, no_context-IsBalanced, nosemaphore-IsBalanced, bad_area-IsReleased,
  access_error-IsReleased, mm_fault_error-IsBalanced,
}

module _ {W : Type 0} (k : Kernel W) (e : ErrorCode) (address : ℕ) where
  after_mm_fault-IsReleased :
      (n : ℕ) (flags : FaultFlags) (major : Bool) (fault : VmFault) (again : St W → St W) (s : St W)
      → (flags.allow_retry ≡ true → IsBalanced n (up_read s) (again (up_read s)))
      → IsReleased n s (after_mm_fault k e address flags major fault again s)
  unfolding after_mm_fault count_fault up_read
  after_mm_fault-IsReleased n flags major fault again s h = ground (
    arith,
    no_context-IsBalanced k e address sigbus bus_adrerr (up_read s),
    mm_fault_error-IsBalanced k e address fault (up_read s),
  )

  good_area-IsReleased :
      (n : ℕ) (flags : FaultFlags) (major : Bool) (again : Bool → St W → St W) (vma : Vma)
      (s : St W)
      → (flags.allow_retry ≡ true → (m : Bool) (t : St W) → IsBalanced n t (again m t))
      → IsReleased (suc n) s (good_area k e address flags major again vma s)
  unfolding good_area
  good_area-IsReleased n flags major again vma s h =
      let m = k.handle_mm_fault vma address flags s.world in
      let t = note (mm_fault flags) (set_world m.1 s) in
      let a = major || m.0.major in
      ground (
        arith,
        access_error-IsReleased k e address vma s,
        after_mm_fault-IsReleased n flags major m.0 (again a) t (λ retry. h retry a (up_read t)),
      )

  after_expand-IsReleased :
      (n : ℕ) (flags : FaultFlags) (major : Bool) (again : Bool → St W → St W) (vma : Vma)
      (failed : Bool) (s : St W)
      → (flags.allow_retry ≡ true → (m : Bool) (t : St W) → IsBalanced n t (again m t))
      → IsReleased (suc n) s (after_expand k e address flags major again vma failed s)
  unfolding after_expand bad_area
  after_expand-IsReleased n flags major again vma true s h =
      let b = bad_area-IsReleased k e address 0 segv_maperr s in
      record { less_held = b.less_held; few_calls = omega (arith, b.few_calls); ends = b.ends }
  after_expand-IsReleased n flags major again vma false s h =
      good_area-IsReleased n flags major again vma s h

  with_vma-IsReleased :
      (n : ℕ) (flags : FaultFlags) (major : Bool) (again : Bool → St W → St W) (o : Option Vma)
      (s : St W)
      → (flags.allow_retry ≡ true → (m : Bool) (t : St W) → IsBalanced n t (again m t))
      → IsReleased (suc n) s (with_vma k e address flags major again o s)
  unfolding with_vma bad_area
  with_vma-IsReleased n flags major again none s h =
      let b = bad_area-IsReleased k e address 0 segv_maperr s in
      record { less_held = b.less_held; few_calls = omega (arith, b.few_calls); ends = b.ends }
  with_vma-IsReleased n flags major again (some vma) s h =
      let m = k.expand_stack vma address s.world in
      ground (
        arith,
        bad_area-IsReleased k e address 0 segv_maperr s,
        good_area-IsReleased n flags major again vma s h,
        after_expand-IsReleased n flags major again vma m.0 (set_world m.1 s) h,
      )

  search_vma-IsReleased :
      (n : ℕ) (flags : FaultFlags) (major : Bool) (again : Bool → St W → St W) (s : St W)
      → (flags.allow_retry ≡ true → (m : Bool) (t : St W) → IsBalanced n t (again m t))
      → IsReleased (suc n) s (search_vma k e address flags major again s)
  unfolding search_vma
  search_vma-IsReleased n flags major again s h =
      with_vma-IsReleased n flags major again (k.find_vma address s.world) s h

  -- An attempt that no retry may follow.
  last_attempt-IsReleased :
      (n : ℕ) (flags : FaultFlags) (major : Bool) (s : St W)
      → flags.allow_retry ≡ false
      → IsReleased 1 s (attempt k e address (suc n) flags major s)
  unfolding attempt
  last_attempt-IsReleased n flags major s no_retry =
      search_vma-IsReleased 0 flags major
        (λ m t. attempt k e address n (retried k e address flags) m (down_read t)) s
        (λ h. absurd (ground arith))

  retry-IsBalanced :
      (n : ℕ) (flags : FaultFlags) (major : Bool) (s : St W)
      → IsBalanced 1 s (attempt k e address (suc n) (retried k e address flags) major (down_read s))
  unfolding down_read retried
  retry-IsBalanced n flags major s =
      let b = last_attempt-IsReleased n (retried k e address flags) major (down_read s) refl in
      record { same_held = omega (arith, b.less_held); few_calls = b.few_calls; ends = b.ends }

  attempts-IsBalanced :
      (flags : FaultFlags) (s : St W) → IsBalanced 2 s (attempts k e address flags (down_read s))
  unfolding attempts attempt down_read
  attempts-IsBalanced flags s =
      let b =
        search_vma-IsReleased 1 flags false
          (λ m t. attempt k e address 2 (retried k e address flags) m (down_read t)) (down_read s)
          (λ _ m t. retry-IsBalanced 1 flags m t) in
      record { same_held = omega (arith, b.less_held); few_calls = b.few_calls; ends = b.ends }

  lock-IsBalanced :
      (flags : FaultFlags) (s : St W) → IsBalanced 2 s (lock_and_search k e address flags s)
  unfolding lock_and_search bad_area_nosemaphore
  lock-IsBalanced flags s =
      ground
        (arith, attempts-IsBalanced flags s, nosemaphore-IsBalanced k e address 0 segv_maperr s)

  take_fault-IsBalanced : (s : St W) → IsBalanced 2 s (take_fault k e address s)
  unfolding take_fault after_emulation irq_enable
  take_fault-IsBalanced s =
      let s1 = if k.user_mode s.regs || has_if s.regs then irq_enable s else s in
      let m = k.emulate_vsyscall e s1.regs address s1.world in
      ground (
        arith,
        lock-IsBalanced (first_flags k e address s.regs) s1,
        lock-IsBalanced (first_flags k e address s.regs) (record s1 { regs = m.1; world = m.2 }),
      )

  user_rest-IsBalanced : (s : St W) → IsBalanced 2 s (user_fault_rest k e address s)
  unfolding user_fault_rest bad_area_nosemaphore
  user_rest-IsBalanced s =
      ground (arith, take_fault-IsBalanced s, nosemaphore-IsBalanced k e address 0 segv_maperr s)

  user_fault-IsBalanced : (s : St W) → IsBalanced 2 s (do_user_addr_fault k e address s)
  unfolding do_user_addr_fault
  user_fault-IsBalanced s =
      ground (arith, user_rest-IsBalanced s, user_rest-IsBalanced (note (oops sig_zero) s))

  kern_rest-IsBalanced : (s : St W) → IsBalanced 0 s (kern_fault_rest k e address s)
  unfolding kern_fault_rest bad_area_nosemaphore
  kern_rest-IsBalanced s = ground (arith, nosemaphore-IsBalanced k e address 0 segv_maperr s)

  after_vmalloc-IsBalanced :
      (v : Verdict W) (s : St W) → IsBalanced 0 s (after_vmalloc_fault k e address v s)
  unfolding after_vmalloc_fault
  after_vmalloc-IsBalanced (handled w) s = ground arith
  after_vmalloc-IsBalanced (refused w) s =
      let b = kern_rest-IsBalanced (set_world w s) in
      record { same_held = b.same_held; few_calls = b.few_calls; ends = b.ends }
  after_vmalloc-IsBalanced (crashed w) s = ground arith

  kern_fault-IsBalanced : (s : St W) → IsBalanced 0 s (do_kern_addr_fault k e address s)
  unfolding do_kern_addr_fault
  kern_fault-IsBalanced s =
      ground (
        arith,
        kern_rest-IsBalanced s,
        after_vmalloc-IsBalanced (vmalloc_fault k address s.world) s,
      )

  after_kmmio-IsBalanced : (b : Bool) (s : St W) → IsBalanced 2 s (after_kmmio k e address (b, s))
  unfolding after_kmmio
  after_kmmio-IsBalanced true s = ground arith
  after_kmmio-IsBalanced false s = elim (Bool-cases (fault_in_kernel_space k address)) [
    | inl c ↦
        let b = kern_fault-IsBalanced s in
        rw c (record {
          same_held = b.same_held;
          few_calls = omega (arith, b.few_calls);
          ends = b.ends;
        })
    | inr c ↦ rw c (user_fault-IsBalanced s)
  ]

-- Whatever a page fault meets, the handler leaves mmap_sem held as often as it was, calls
-- handle_mm_fault at most twice, and does not go to retry again: the fuel for a third attempt is never
-- used.
pub do_page_fault-IsBalanced :
    {W : Type 0} (k : Kernel W) (e : ErrorCode) (address : ℕ) (s : St W)
    → IsBalanced 2 s (do_page_fault k e address s)
unfolding do_page_fault kmmio_fault
do_page_fault-IsBalanced k e address s =
    let (ret, w) = k.kmmio_handler s.regs address s.world in
    elim (Bool-cases (k.is_kmmio_active s.world)) [
      | inl c ↦
          let b = after_kmmio-IsBalanced k e address (ret == 1) (set_world w s) in
          rw c (record { same_held = b.same_held; few_calls = b.few_calls; ends = b.ends })
      | inr c ↦ rw c (after_kmmio-IsBalanced k e address false s)
    ]
