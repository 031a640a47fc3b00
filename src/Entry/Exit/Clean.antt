-- ===== src/Entry/Exit/Clean.antt =====
-- The state in which the kernel returns to user mode.
use mathlib.Core.Option.{some-injective, none-ne-some}
use userspace_bypass.Prelude.{
  ℕ, zero, suc, ◌≡◌, refl, Bool, true, false, Option, none, some, Bool-cases, inl, inr, ◌∙◌,
  if◌then◌else◌,
}
use userspace_bypass.Entry.State.{
  Flags, Task, Kernel, St, Ext, switch_fpu_return, user_enter_irqoff, mds_user_clear_cpu_buffers,
  addr_limit_user_check, call, call_if, local_irq_disable,
}
use userspace_bypass.Entry.Exit.{
  has_exit_work, exit_round, exit_to_usermode_loop, clear_status, finish_exit, finish_if,
  prepare_exit_to_usermode, syscall_return_slowpath,
}

-- Ready for user mode: interrupts off, no work left, and the marks of 32-bit syscalls gone.
pub record IsClean {W : Type 0} (s : St W) : Type 0 where
  pub irqs_off : s.irqs ≡ false
  pub no_work : has_exit_work s.task.flags ≡ false
  pub no_compat : s.task.ts_compat ≡ false
  pub no_poke : s.task.i386_regs_poked ≡ false

-- What the last three calls before user mode leave alone.
pub record IsQuiet {W : Type 0} (k : Kernel W) : Type 0 where
  pub fpu :
      (t : Task) (w : W)
      → has_exit_work (k.ext switch_fpu_return t w).task.flags ≡ has_exit_work t.flags
  pub enter : (t : Task) (w : W) → (k.ext user_enter_irqoff t w).task ≡ t
  pub mds : (t : Task) (w : W) → (k.ext mds_user_clear_cpu_buffers t w).task ≡ t

module _ {W : Type 0} (k : Kernel W) where
  exit_round-irqs : (f : Flags) (s : St W) → (exit_round k f s).irqs ≡ false
  unfolding exit_round local_irq_disable
  exit_round-irqs f s = refl

  loop_end :
      (fuel : ℕ) (f : Flags) (s t : St W)
      → exit_to_usermode_loop fuel k f s ≡ some t
      → (t.irqs ≡ false) × (has_exit_work t.task.flags ≡ false)
  unfolding exit_to_usermode_loop
  loop_end zero f s t e = absurd (none-ne-some _ e)
  loop_end (suc fuel) f s t e = elim (Bool-cases (has_exit_work (exit_round k f s).task.flags)) [
    | inl more ↦ loop_end fuel _ _ t (rw (more, exit_to_usermode_loop) at e)
    | inr done ↦
        let q : exit_round k f s ≡ t = some-injective _ _ (rw (done, exit_to_usermode_loop) at e) in
        rw (← q) (exit_round-irqs f s, done)
  ]

  -- Calling a function leaves interrupts as they are.
  call_if-irqs : (b : Bool) (e : Ext) (s : St W) → (call_if k b e s).irqs ≡ s.irqs
  unfolding call_if call
  call_if-irqs true e s = refl
  call_if-irqs false e s = refl

  fpu-work :
      (b : Bool) (s : St W)
      → IsQuiet k
      → has_exit_work (call_if k b switch_fpu_return s).task.flags ≡ has_exit_work s.task.flags
  unfolding call_if call
  fpu-work true s q = q.fpu s.task s.world
  fpu-work false s q = refl

  leave-IsClean :
      (s : St W)
      → IsQuiet k
      → s.irqs ≡ false
      → has_exit_work s.task.flags ≡ false
      → IsClean (call k mds_user_clear_cpu_buffers (call k user_enter_irqoff (clear_status s)))
  unfolding call clear_status
  leave-IsClean s q i w = record {
    irqs_off = i;
    no_work = rw (q.mds _ _, q.enter _ _) w;
    no_compat = rw (q.mds _ _, q.enter _ _);
    no_poke = rw (q.mds _ _, q.enter _ _);
  }

  finish_exit-IsClean :
      (s : St W)
      → IsQuiet k
      → s.irqs ≡ false
      → has_exit_work s.task.flags ≡ false
      → IsClean (finish_exit k s)
  unfolding finish_exit
  finish_exit-IsClean s q i w =
      let b = s.task.flags.need_fpu_load in
      leave-IsClean (call_if k b switch_fpu_return s) q (call_if-irqs b switch_fpu_return s ∙ i)
        (fpu-work b s q ∙ w)

  finish_if-IsClean :
      (r : Option (St W)) (t : St W)
      → IsQuiet k
      → ((s : St W) → r ≡ some s → (s.irqs ≡ false) × (has_exit_work s.task.flags ≡ false))
      → finish_if k r ≡ some t
      → IsClean t
  unfolding finish_if
  finish_if-IsClean none t q h e = absurd (none-ne-some _ e)
  finish_if-IsClean (some s) t q h e =
      rw (some-injective _ _ e) at (finish_exit-IsClean s q (h s refl).0 (h s refl).1)

  -- What prepare_exit_to_usermode returns is ready for user mode, however much work came up.
  pub prepare_exit-IsClean :
      (fuel : ℕ) (s t : St W)
      → IsQuiet k
      → s.irqs ≡ false
      → prepare_exit_to_usermode fuel k s ≡ some t
      → IsClean t
  unfolding prepare_exit_to_usermode call
  prepare_exit-IsClean fuel s t q i e =
      finish_if-IsClean _ t q (before (call k addr_limit_user_check s) i) e
    where
      before :
          (s1 : St W)
          → s1.irqs ≡ false
          → (u : St W)
          → (if has_exit_work s1.task.flags
              then exit_to_usermode_loop fuel k s1.task.flags s1
              else some s1)
            ≡ some u
          → (u.irqs ≡ false) × (has_exit_work u.task.flags ≡ false)
      before s1 i1 u f = elim (Bool-cases (has_exit_work s1.task.flags)) [
        | inl w ↦ loop_end fuel s1.task.flags s1 u (rw w at f)
        | inr w ↦ let same : s1 ≡ u = some-injective _ _ (rw w at f) in rw (← same) (i1, w)
      ]

  -- So is what syscall_return_slowpath returns, from any state.
  pub return_slowpath-IsClean :
      (fuel : ℕ) (s t : St W) → IsQuiet k → syscall_return_slowpath fuel k s ≡ some t → IsClean t
  unfolding syscall_return_slowpath local_irq_disable
  return_slowpath-IsClean fuel s t q e = prepare_exit-IsClean fuel _ t q refl e
