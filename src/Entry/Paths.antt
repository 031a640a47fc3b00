-- ===== src/Entry/Paths.antt =====
-- How each kind of syscall comes back to user mode.
use mathlib.Core.Option.{some-injective, none-ne-some}
use mathlib.Core.Path.{subst}
use userspace_bypass.Prelude.{
  arith, ◌/◌, ◌%◌, ◌^◌, sym, ◌∙◌, ℕ, ◌≡◌, refl, Bool, true, false, Option, none, some, ◌⊎◌, inl,
  inr, ap,
}
use userspace_bypass.Regs.{Regs}
use userspace_bypass.Entry.Exit.{has_exit_work}
use userspace_bypass.Entry.State.{Kernel, St, local_irq_disable, set_ax}
use userspace_bypass.Entry.Exit.Clean.{
  IsClean, IsQuiet, prepare_exit-IsClean, return_slowpath-IsClean,
}
use userspace_bypass.Entry.Syscall.{Hook, return_slowly, do_syscall_64}
use userspace_bypass.Entry.Compat.{
  do_syscall_32_irqs_on, do_int80_syscall_32, has_rf_or_tf, can_sysret, with_result, with_sysret,
  fast_call, do_fast_syscall_32,
}

module _ {W : Type 0} (k : Kernel W) where
  return_slowly-IsClean :
      (fuel : ℕ) (r : Option (St W)) (t : St W)
      → IsQuiet k
      → return_slowly fuel k r ≡ some t
      → IsClean t
  unfolding return_slowly
  return_slowly-IsClean fuel none t q e = absurd (none-ne-some _ e)
  return_slowly-IsClean fuel (some s) t q e = return_slowpath-IsClean k fuel s t q e

  syscall_32-IsClean :
      (fuel : ℕ) (s t : St W) → IsQuiet k → do_syscall_32_irqs_on fuel k s ≡ some t → IsClean t
  unfolding do_syscall_32_irqs_on
  syscall_32-IsClean fuel s t q e = return_slowpath-IsClean k fuel _ t q e

  with_result-IsClean :
      (c : Bool) (r : Option (St W)) (b : Bool) (t : St W)
      → ((u : St W) → r ≡ some u → IsClean u)
      → with_result c r ≡ some (b, t)
      → IsClean t × (b ≡ c)
  unfolding with_result
  with_result-IsClean c none b t h e = absurd (none-ne-some _ e)
  with_result-IsClean c (some u) b t h e =
      let q = some-injective _ _ e in
      (rw (ap (λ (p : Bool × St W). p.1) q) at (h u refl), sym (ap (λ (p : Bool × St W). p.0) q))

  with_sysret-IsClean :
      (pad : ℕ) (r : Option (St W)) (b : Bool) (t : St W)
      → ((u : St W) → r ≡ some u → IsClean u)
      → with_sysret k pad r ≡ some (b, t)
      → IsClean t × (b ≡ can_sysret k pad t)
  unfolding with_sysret
  with_sysret-IsClean pad none b t h e = absurd (none-ne-some _ e)
  with_sysret-IsClean pad (some u) b t h e =
      let q = some-injective _ _ e in
      let same : u ≡ t = ap (λ (p : Bool × St W). p.1) q in
      subst (λ (v : St W). IsClean v × (b ≡ can_sysret k pad v)) same
        (h u refl, sym (ap (λ (p : Bool × St W). p.0) q))

  fast_call-IsClean :
      (fuel pad : ℕ) (bp : Option ℕ) (s : St W) (b : Bool) (t : St W)
      → IsQuiet k
      → fast_call fuel k pad bp s ≡ some (b, t)
      → IsClean t × (b ≡ true → can_sysret k pad t ≡ true)
  unfolding fast_call local_irq_disable set_ax
  fast_call-IsClean fuel pad none s b t q e =
      let (clean, no_sysret) =
        with_result-IsClean false _ b t (λ u f. prepare_exit-IsClean k fuel _ u q refl f) e in
      (clean, λ h. cc)
  fast_call-IsClean fuel pad (some bp) s b t q e =
      let (clean, sysret) =
        with_sysret-IsClean pad _ b t (λ u f. syscall_32-IsClean fuel _ u q f) e in
      (clean, λ h. sym sysret ∙ h)

-- `Returns k fuel s sysret t`: a syscall that enters in s, 64-bit with or without the hook, by int 0x80 or
-- by the fast 32-bit way, is back before user mode in t; `sysret` is the fast way's result 1.
pub data Returns {W : Type 0} (k : Kernel W) (fuel : ℕ) (s : St W) : Bool → St W → Type 0 where
  by_syscall_64 :
      {t : St W} (zz_var : Hook W) (ts nr : ℕ)
      → do_syscall_64 fuel k zz_var ts nr s ≡ some t
      → Returns k fuel s false t
  by_int80 : {t : St W} → do_int80_syscall_32 fuel k s ≡ some t → Returns k fuel s false t
  by_fast_32 :
      {b : Bool} {t : St W} → do_fast_syscall_32 fuel k s ≡ some (b, t) → Returns k fuel s b t

sysret_if :
    {W : Type 0} (k : Kernel W) (pad : ℕ) (b : Bool) (t : St W)
    → (b ≡ true → can_sysret k pad t ≡ true)
    → (b ≡ false) ⊎ (can_sysret k pad t ≡ true)
sysret_if k pad true t h = inr (h refl)
sysret_if k pad false t h = inl refl

-- Ready for user mode: interrupts off, none of the six kinds of work left that the loop does, and no mark
-- of a 32-bit syscall.
pub record IsReady {W : Type 0} (s : St W) : Type 0 where
  pub irqs_off : s.irqs ≡ false
  pub no_signal : s.task.flags.sigpending ≡ false
  pub no_notify : s.task.flags.notify_resume ≡ false
  pub no_uprobe : s.task.flags.uprobe ≡ false
  pub no_resched : s.task.flags.need_resched ≡ false
  pub no_notifier : s.task.flags.user_return_notify ≡ false
  pub no_patch : s.task.flags.patch_pending ≡ false
  pub no_compat : s.task.ts_compat ≡ false
  pub no_poke : s.task.i386_regs_poked ≡ false

IsClean-IsReady : {W : Type 0} (s : St W) → IsClean s → IsReady s
unfolding has_exit_work
IsClean-IsReady s h =
    let w = h.no_work in
    record {
      irqs_off = h.irqs_off;
      no_signal = ground arith;
      no_notify = ground arith;
      no_uprobe = ground arith;
      no_resched = ground arith;
      no_notifier = ground arith;
      no_patch = ground arith;
      no_compat = h.no_compat;
      no_poke = h.no_poke;
    }

-- What SYSRETL restores: the segments of 32-bit user code, the landing pad, and flags without RF and TF.
pub record IsRestorable {W : Type 0} (k : Kernel W) (landing_pad : ℕ) (r : Regs) : Type 0 where
  pub cs : r.cs ≡ k.user32_cs
  pub ss : r.ss ≡ k.user_ds
  pub ip : r.ip ≡ landing_pad
  pub no_rf : r.flags / 2 ^ 16 % 2 ≡ 0
  pub no_tf : r.flags / 2 ^ 8 % 2 ≡ 0

can_sysret-IsRestorable :
    {W : Type 0} (k : Kernel W) (pad : ℕ) (s : St W)
    → can_sysret k pad s ≡ true
    → IsRestorable k pad s.task.regs
unfolding can_sysret has_rf_or_tf
can_sysret-IsRestorable k pad s h = record {
  cs = ground arith;
  ss = ground arith;
  ip = ground arith;
  no_rf = ground arith;
  no_tf = ground arith;
}

sysret_restores :
    {W : Type 0} (k : Kernel W) (pad : ℕ) (b : Bool) (t : St W)
    → ((b ≡ false) ⊎ (can_sysret k pad t ≡ true))
    → (b ≡ false) ⊎ IsRestorable k pad t.task.regs
sysret_restores k pad b t (inl h) = inl h
sysret_restores k pad b t (inr h) = inr (can_sysret-IsRestorable k pad t h)

Returns-IsClean :
    {W : Type 0} (k : Kernel W) (fuel : ℕ) (s t : St W) (sysret : Bool)
    → IsQuiet k
    → Returns k fuel s sysret t
    → IsClean t × ((sysret ≡ false) ⊎ (can_sysret k (k.landing_pad s.world) t ≡ true))
unfolding do_syscall_64 do_int80_syscall_32 do_fast_syscall_32
Returns-IsClean k fuel s t sysret q (by_syscall_64 zz_var ts nr e) =
    (return_slowly-IsClean k fuel _ t q e, inl refl)
Returns-IsClean k fuel s t sysret q (by_int80 e) = (syscall_32-IsClean k fuel _ t q e, inl refl)
Returns-IsClean k fuel s t sysret q (by_fast_32 e) =
    let (clean, h) = fast_call-IsClean k fuel _ _ _ sysret t q e in
    (clean, sysret_if k _ sysret t h)

-- However a syscall enters, if it comes back the task is before user mode with interrupts off, none of
-- the six flags set that ask for exit work and no mark of a 32-bit syscall, and SYSRETL is chosen only
-- at the landing pad, with the segments of 32-bit user code and without RF and TF; provided
-- switch_fpu_return leaves the exit work as it is, and user_enter_irqoff and
-- mds_user_clear_cpu_buffers the task.
pub syscalls-IsReady :
    {W : Type 0} (k : Kernel W) (fuel : ℕ) (s t : St W) (sysret : Bool)
    → IsQuiet k
    → Returns k fuel s sysret t
    → IsReady t × ((sysret ≡ false) ⊎ IsRestorable k (k.landing_pad s.world) t.task.regs)
syscalls-IsReady k fuel s t sysret q r =
    let (clean, restored) = Returns-IsClean k fuel s t sysret q r in
    (IsClean-IsReady t clean, sysret_restores k (k.landing_pad s.world) sysret t restored)
