-- ===== src/Fault/Handler/User.antt =====
-- A page fault of user code makes no oops.
use userspace_bypass.Prelude.{
  ℕ, zero, suc, ◌≡◌, refl, arith, Bool, true, false, Option, none, some, List, [], ◌∷◌, ◌||◌, ◌==◌,
  Bool-cases, inl, inr,
}
use userspace_bypass.Regs.{Regs}
use userspace_bypass.Fault.State.{
  ErrorCode, SiCode, segv_maperr, segv_accerr, segv_pkuerr, set_world, Vma, FaultFlags, VmFault,
  Event, force_sig_fault, force_sig_pkuerr, force_sig_mceerr, oops, bug, stack_overflow,
  out_of_memory, show_signal_msg, efi_recover, out_of_fuel, mm_fault, Kernel, St, note, down_read,
  up_read, irq_enable,
}
use userspace_bypass.Fault.Context.{set_signal_archinfo}
use userspace_bypass.Fault.Area.{
  send_segv, bad_area_nosemaphore_with, bad_area_nosemaphore, bad_area_with, bad_area,
  bad_area_access_error, do_sigbus, mm_fault_error, is_error,
}
use userspace_bypass.Fault.Handler.{
  kern_fault_rest, do_kern_addr_fault, count_fault, after_mm_fault, good_area, after_expand,
  with_vma, search_vma, attempt, retried, attempts, lock_and_search, after_emulation, take_fault,
  user_fault_rest, do_user_addr_fault, first_flags, kmmio_fault, after_kmmio, do_page_fault,
}

-- The oopses, a stack overflow and a BUG() counted as such.
abbrev pub oopses : List Event → ℕ
oopses [] = 0
oopses (oops a ∷ es) = suc (oopses es)
oopses (stack_overflow ∷ es) = suc (oopses es)
oopses (mm_fault f ∷ es) = oopses es
oopses (force_sig_fault a b c ∷ es) = oopses es
oopses (force_sig_pkuerr a b ∷ es) = oopses es
oopses (force_sig_mceerr a b c ∷ es) = oopses es
oopses (bug ∷ es) = suc (oopses es)
oopses (out_of_fuel ∷ es) = oopses es
oopses (out_of_memory ∷ es) = oopses es
oopses (show_signal_msg ∷ es) = oopses es
oopses (efi_recover a ∷ es) = oopses es

abbrev pub IsUser : {W : Type 0} → Kernel W → St W → Type 0
IsUser k s = k.user_mode s.regs ≡ true

-- emulate_vsyscall goes back to user code.
abbrev pub StaysUser : {W : Type 0} → Kernel W → Type 0
StaysUser {W} k =
    (e : ErrorCode) (r : Regs) (a : ℕ) (w : W)
    → k.user_mode r ≡ true
    → k.user_mode (k.emulate_vsyscall e r a w).1 ≡ true

-- handle_mm_fault keeps VM_FAULT_FALLBACK to itself.
abbrev pub FallsBackInside : {W : Type 0} → Kernel W → Type 0
FallsBackInside {W} k =
    (vma : Vma) (a : ℕ) (f : FaultFlags) (w : W) → (k.handle_mm_fault vma a f w).0.fallback ≡ false

module _ {W : Type 0} (k : Kernel W) (e : ErrorCode) (address : ℕ) (by_user : e.user ≡ true)
    (inside : FallsBackInside k) where
  nosemaphore-oopses :
      (pkey : ℕ) (si_code : SiCode) (s : St W)
      → IsUser k s
      → oopses (bad_area_nosemaphore_with k e address pkey si_code s).trace ≡ oopses s.trace
  unfolding bad_area_nosemaphore_with send_segv irq_enable set_signal_archinfo
  nosemaphore-oopses pkey si_code s u = ground arith

  bad_area-oopses :
      (pkey : ℕ) (si_code : SiCode) (s : St W)
      → IsUser k s
      → oopses (bad_area_with k e address pkey si_code s).trace ≡ oopses s.trace
  unfolding bad_area_with up_read
  bad_area-oopses pkey si_code s u = nosemaphore-oopses pkey si_code (up_read s) u

  access_error-oopses :
      (vma : Vma) (s : St W)
      → IsUser k s
      → oopses (bad_area_access_error k e address vma s).trace ≡ oopses s.trace
  unfolding bad_area_access_error
  access_error-oopses vma s u =
      ground (arith, bad_area-oopses vma.pkey segv_pkuerr s u, bad_area-oopses 0 segv_accerr s u)

  mm_fault_error-oopses :
      (f : VmFault) (s : St W)
      → is_error f ≡ true
      → f.fallback ≡ false
      → IsUser k s
      → oopses (mm_fault_error k e address f s).trace ≡ oopses s.trace
  unfolding mm_fault_error is_error bad_area_nosemaphore do_sigbus set_signal_archinfo
  mm_fault_error-oopses f s is known u = ground (arith, nosemaphore-oopses 0 segv_maperr s u)

  -- What a retry does.
  abbrev Retries : FaultFlags → (Bool → St W → St W) → Type 0
  Retries flags again =
      flags.allow_retry ≡ true
      → (m : Bool) (t : St W) → IsUser k t
      → oopses (again m t).trace ≡ oopses t.trace

  after_mm_fault-oopses :
      (flags : FaultFlags) (major : Bool) (fault : VmFault) (again : St W → St W) (s : St W)
      → flags.for_user ≡ true
      → fault.fallback ≡ false
      → (flags.allow_retry ≡ true → oopses (again (up_read s)).trace ≡ oopses (up_read s).trace)
      → IsUser k s
      → oopses (after_mm_fault k e address flags major fault again s).trace ≡ oopses s.trace
  unfolding after_mm_fault count_fault up_read
  after_mm_fault-oopses flags major fault again s f known h u =
      let bad : is_error fault ≡ true
          → oopses (mm_fault_error k e address fault (up_read s)).trace ≡ oopses (up_read s).trace =
        λ is. mm_fault_error-oopses fault (up_read s) is known u in
      ground (arith, bad)

  good_area-oopses :
      (flags : FaultFlags) (major : Bool) (again : Bool → St W → St W) (vma : Vma) (s : St W)
      → flags.for_user ≡ true
      → Retries flags again
      → IsUser k s
      → oopses (good_area k e address flags major again vma s).trace ≡ oopses s.trace
  unfolding good_area up_read
  good_area-oopses flags major again vma s f h u =
      let m = k.handle_mm_fault vma address flags s.world in
      let t = note (mm_fault flags) (set_world m.1 s) in
      let a = major || m.0.major in
      ground (
        arith,
        access_error-oopses vma s u,
        after_mm_fault-oopses flags major m.0 (again a) t f (inside vma address flags s.world)
            (λ retry. h retry a (up_read t) u) u,
      )

  with_vma-oopses :
      (flags : FaultFlags) (major : Bool) (again : Bool → St W → St W) (o : Option Vma) (s : St W)
      → flags.for_user ≡ true
      → Retries flags again
      → IsUser k s
      → oopses (with_vma k e address flags major again o s).trace ≡ oopses s.trace
  unfolding with_vma after_expand bad_area
  with_vma-oopses flags major again none s f h u = bad_area-oopses 0 segv_maperr s u
  with_vma-oopses flags major again (some vma) s f h u =
      let m = k.expand_stack vma address s.world in
      ground (
        arith,
        bad_area-oopses 0 segv_maperr s u,
        good_area-oopses flags major again vma s f h u,
        expanded m.0 (set_world m.1 s) u,
      )
    where
      expanded :
          (failed : Bool) (t : St W)
          → IsUser k t
          → oopses (after_expand k e address flags major again vma failed t).trace ≡ oopses t.trace
      expanded true t v = bad_area-oopses 0 segv_maperr t v
      expanded false t v = good_area-oopses flags major again vma t f h v

  attempt-oopses :
      (n : ℕ) (flags : FaultFlags) (major : Bool) (s : St W)
      → flags.for_user ≡ true
      → IsUser k s
      → oopses (attempt k e address n flags major s).trace ≡ oopses s.trace
  unfolding attempt search_vma retried down_read
  attempt-oopses zero flags major s f u = refl
  attempt-oopses (suc n) flags major s f u =
      with_vma-oopses flags major
        (λ m t. attempt k e address n (retried k e address flags) m (down_read t))
        (k.find_vma address s.world) s f
        (λ h m t v. attempt-oopses n (retried k e address flags) m (down_read t) f v) u

  attempts-oopses :
      (flags : FaultFlags) (s : St W)
      → flags.for_user ≡ true
      → IsUser k s
      → oopses (attempts k e address flags s).trace ≡ oopses s.trace
  unfolding attempts
  attempts-oopses flags s f u = attempt-oopses 3 flags false s f u

  lock-oopses :
      (flags : FaultFlags) (s : St W)
      → flags.for_user ≡ true
      → IsUser k s
      → oopses (lock_and_search k e address flags s).trace ≡ oopses s.trace
  unfolding lock_and_search down_read
  lock-oopses flags s f u = ground (arith, attempts-oopses flags (down_read s) f u)

  take_fault-oopses :
      (s : St W)
      → StaysUser k
      → IsUser k s
      → oopses (take_fault k e address s).trace ≡ oopses s.trace
  unfolding take_fault after_emulation irq_enable first_flags
  take_fault-oopses s stays u =
      let s1 = irq_enable s in
      let m = k.emulate_vsyscall e s1.regs address s1.world in
      ground (
        arith,
        lock-oopses (first_flags k e address s.regs) s1 u u,
        lock-oopses (first_flags k e address s.regs) (record s1 { regs = m.1; world = m.2 }) u
            (stays e s.regs address s.world u),
      )

  user_rest-oopses :
      (s : St W)
      → StaysUser k
      → IsUser k s
      → oopses (user_fault_rest k e address s).trace ≡ oopses s.trace
  unfolding user_fault_rest bad_area_nosemaphore
  user_rest-oopses s stays u =
      ground (arith, take_fault-oopses s stays u, nosemaphore-oopses 0 segv_maperr s u)

  kern_rest-oopses :
      (s : St W) → IsUser k s → oopses (kern_fault_rest k e address s).trace ≡ oopses s.trace
  unfolding kern_fault_rest bad_area_nosemaphore
  kern_rest-oopses s u = ground (arith, nosemaphore-oopses 0 segv_maperr s u)

  after_kmmio-oopses :
      (b : Bool) (s : St W)
      → e.rsvd ≡ false
      → StaysUser k
      → IsUser k s
      → oopses (after_kmmio k e address (b, s)).trace ≡ oopses s.trace
  unfolding after_kmmio do_kern_addr_fault do_user_addr_fault
  after_kmmio-oopses true s r stays u = refl
  after_kmmio-oopses false s r stays u =
      ground (arith, kern_rest-oopses s u, user_rest-oopses s stays u)

-- A page fault that user code makes by an access of its own, with no reserved bit set, never ends in
-- an oops, a stack overflow or a BUG(), if emulate_vsyscall goes back to user code and handle_mm_fault
-- never returns VM_FAULT_FALLBACK.
pub do_page_fault-oopses :
    {W : Type 0} (k : Kernel W) (e : ErrorCode) (address : ℕ) (s : St W)
    → e.user ≡ true
    → e.rsvd ≡ false
    → StaysUser k
    → FallsBackInside k
    → k.user_mode s.regs ≡ true
    → oopses (do_page_fault k e address s).trace ≡ oopses s.trace
unfolding do_page_fault kmmio_fault
do_page_fault-oopses k e address s by_user r stays inside u =
    let (ret, w) = k.kmmio_handler s.regs address s.world in
    elim (Bool-cases (k.is_kmmio_active s.world)) [
      | inl c ↦
          rw c (after_kmmio-oopses k e address by_user inside (ret == 1) (set_world w s) r stays u)
      | inr c ↦ rw c (after_kmmio-oopses k e address by_user inside false s r stays u)
    ]
