-- ===== src/Entry/Exit/Total.antt =====
-- The way back to user mode ends when the work that comes up runs out.
use userspace_bypass.Prelude.{
  ◌⊎◌, sym, refl, ap, ◌∙◌, ◌≤◌, Bool, false, ℕ, zero, suc, ◌<◌, ◌≡◌, arith, true, some, Bool-cases,
  inl, inr,
}
use userspace_bypass.Entry.State.{
  Flags, Task, Ext, schedule, uprobe_notify_resume, klp_update_patch_state, do_signal,
  tracehook_notify_resume, rseq_handle_notify_resume, fire_user_return_notifiers, call_if, Kernel,
  St, addr_limit_user_check, call, local_irq_disable, local_irq_enable, rseq_syscall,
}
use userspace_bypass.Entry.Exit.{
  clear_notify_resume, resume_notified, has_exit_work, exit_round, exit_to_usermode_loop,
  finish_exit, finish_if, prepare_exit_to_usermode, slow_work_if, syscall_return_slowpath,
}
use userspace_bypass.Entry.Syscall.{
  Hook, run_hook, run_syscall, enter_number, return_slowly, do_syscall_64,
}

-- `left` counts the work that is left, the flag for notify_resume, which the kernel's loop clears itself,
-- being a part of it: a function that is called leaves less of it, or leaves it and the flags as they are,
-- and the function for a flag that is set leaves less.
pub record Settles {W : Type 0} (k : Kernel W) (left : Task → W → ℕ) : Type 0 where
  pub call :
      (e : Ext) (t : Task) (w : W)
      → let a = k.ext e t w in
        (left a.task a.world < left t w)
        ⊎ (a.task.flags ≡ t.flags) × (left a.task a.world ≡ left t w)
  pub resched :
      (t : Task) (w : W)
      → t.flags.need_resched ≡ true
      → let a = k.ext schedule t w in left a.task a.world < left t w
  pub uprobe :
      (t : Task) (w : W)
      → t.flags.uprobe ≡ true
      → let a = k.ext uprobe_notify_resume t w in left a.task a.world < left t w
  pub patch :
      (t : Task) (w : W)
      → t.flags.patch_pending ≡ true
      → let a = k.ext klp_update_patch_state t w in left a.task a.world < left t w
  pub signal :
      (t : Task) (w : W)
      → t.flags.sigpending ≡ true
      → let a = k.ext do_signal t w in left a.task a.world < left t w
  pub notifier :
      (t : Task) (w : W)
      → t.flags.user_return_notify ≡ true
      → let a = k.ext fire_user_return_notifiers t w in left a.task a.world < left t w
  pub notify :
      (t : Task) (w : W)
      → t.flags.notify_resume ≡ true
      → left (record t { flags = record (t.flags) { notify_resume = false } }) w < left t w

module _ {W : Type 0} (k : Kernel W) (left : Task → W → ℕ) (settles : Settles k left) where
  abbrev work : St W → ℕ
  work s = left s.task s.world

  -- From s to u work has been done, or nothing has happened to the flags.
  abbrev Goes : St W → St W → Type 0
  Goes s u = (work u < work s) ⊎ (u.task.flags ≡ s.task.flags) × (work u ≡ work s)

  call_le : (e : Ext) (u : St W) → work (call k e u) ≤ work u
  unfolding call
  call_le e u = elim (settles.call e u.task u.world) [
    | inl less ↦ omega (arith, less)
    | inr (same, level) ↦ omega (arith, level)
  ]

  call_if_le : (b : Bool) (e : Ext) (u : St W) → work (call_if k b e u) ≤ work u
  unfolding call_if
  call_if_le false e u = omega arith
  call_if_le true e u = call_le e u

  call-Goes : (e : Ext) (s u : St W) → Goes s u → Goes s (call k e u)
  unfolding call
  call-Goes e s u (inl h) = elim (settles.call e u.task u.world) [
    | inl less ↦ inl (omega (arith, h, less))
    | inr (same, level) ↦ inl (omega (arith, h, level))
  ]
  call-Goes e s u (inr (f, h)) = elim (settles.call e u.task u.world) [
    | inl less ↦ inl (omega (arith, h, less))
    | inr (same, level) ↦ inr (same ∙ f, level ∙ h)
  ]

  call_if-Goes : (b : Bool) (e : Ext) (s u : St W) → Goes s u → Goes s (call_if k b e u)
  unfolding call_if
  call_if-Goes false e s u g = g
  call_if-Goes true e s u g = call-Goes e s u g

  -- A call for a flag that is set does work, or some has been done.
  call_if_less :
      (b : Bool) (e : Ext) (s u : St W)
      → Goes s u
      → (u.task.flags ≡ s.task.flags → work (call k e u) < work u)
      → b ≡ true
      → work (call_if k b e u) < work s
  unfolding call_if
  call_if_less false e s u g strict h = cc
  call_if_less true e s u (inl less) strict h = let le = call_le e u in omega (arith, le, less)
  call_if_less true e s u (inr (f, level)) strict h =
      let less = strict f in omega (arith, less, level)

  cleared :
      (u : St W)
      → (u.task.flags.notify_resume ≡ true → work (clear_notify_resume u) < work u)
        × (work (clear_notify_resume u) ≤ work u)
  unfolding clear_notify_resume
  cleared u = (
    settles.notify u.task u.world,
    elim (Bool-cases u.task.flags.notify_resume) [
      | inl set ↦ let less = settles.notify u.task u.world set in omega (arith, less)
      | inr unset ↦ let same = ap work (unchanged u unset) in omega (arith, same)
    ],
  )
    where
      unchanged :
          (u : St W)
          → u.task.flags.notify_resume ≡ false
          → record u {
            task = record (u.task) { flags = record (u.task.flags) { notify_resume = false } };
          }
            ≡ u
      unchanged u unset = λ x. record u {
        task = record (u.task) { flags = record (u.task.flags) { notify_resume = sym unset x } };
      }

  resume_le : (b : Bool) (u : St W) → work (resume_notified k b u) ≤ work u
  unfolding resume_notified
  resume_le false u = omega arith
  resume_le true u =
      let first = call_le tracehook_notify_resume (clear_notify_resume u) in
      let second =
        call_le rseq_handle_notify_resume
          (call k tracehook_notify_resume (clear_notify_resume u)) in
      let clear = (cleared u).1 in omega (arith, first, second, clear)

  resume_less :
      (b : Bool) (s u : St W)
      → Goes s u
      → s.task.flags.notify_resume ≡ b
      → b ≡ true
      → work (resume_notified k b u) < work s
  resume_less false s u g e h = cc
  resume_less true s u (inl less) e h = let le = resume_le true u in omega (arith, le, less)
  resume_less true s u (inr (f, level)) e h =
      let set : u.task.flags.notify_resume ≡ true = ap (λ (x : Flags). x.notify_resume) f ∙ e in
      let less = (cleared u).0 set in
      let first = call_le tracehook_notify_resume (clear_notify_resume u) in
      let second =
        call_le rseq_handle_notify_resume
          (call k tracehook_notify_resume (clear_notify_resume u)) in
      unfold resume_notified in omega (arith, first, second, less, level)

  resume-Goes :
      (b : Bool) (s u : St W)
      → Goes s u
      → s.task.flags.notify_resume ≡ b
      → Goes s (resume_notified k b u)
  resume-Goes false s u g e = unfold resume_notified in g
  resume-Goes true s u g e = inl (resume_less true s u g e refl)

  -- A round for work does some.
  round_less :
      (s : St W) → has_exit_work s.task.flags ≡ true → work (exit_round k s.task.flags s) < work s
  unfolding exit_round has_exit_work call local_irq_enable local_irq_disable
  round_less s some_work =
      let f = s.task.flags in
      let s1 = local_irq_enable s in
      let s2 = call_if k f.need_resched schedule s1 in
      let s3 = call_if k f.uprobe uprobe_notify_resume s2 in
      let s4 = call_if k f.patch_pending klp_update_patch_state s3 in
      let s5 = call_if k f.sigpending do_signal s4 in
      let s6 = resume_notified k f.notify_resume s5 in
      let g1 : Goes s s1 = inr (refl, refl) in
      let g2 = call_if-Goes f.need_resched schedule s s1 g1 in
      let g3 = call_if-Goes f.uprobe uprobe_notify_resume s s2 g2 in
      let g4 = call_if-Goes f.patch_pending klp_update_patch_state s s3 g3 in
      let g5 = call_if-Goes f.sigpending do_signal s s4 g4 in
      let g6 = resume-Goes f.notify_resume s s5 g5 refl in
      let le3 = call_if_le f.uprobe uprobe_notify_resume s2 in
      let le4 = call_if_le f.patch_pending klp_update_patch_state s3 in
      let le5 = call_if_le f.sigpending do_signal s4 in
      let le6 = resume_le f.notify_resume s5 in
      let le7 = call_if_le f.user_return_notify fire_user_return_notifiers s6 in
      let which : (f.need_resched ≡ true)
          ⊎ (f.uprobe ≡ true)
          ⊎ (f.patch_pending ≡ true)
          ⊎ (f.sigpending ≡ true)
          ⊎ (f.notify_resume ≡ true)
          ⊎ (f.user_return_notify ≡ true) =
        ground arith in
      elim which [
        | inl h ↦
            let less =
              call_if_less f.need_resched schedule s s1 g1 (λ e. settles.resched s1.task s1.world h)
                h in
            omega (arith, less, le3, le4, le5, le6, le7)
        | inr (inl h) ↦
            let less =
              call_if_less f.uprobe uprobe_notify_resume s s2 g2
                (λ e. settles.uprobe s2.task s2.world (ap (λ (x : Flags). x.uprobe) e ∙ h)) h in
            omega (arith, less, le4, le5, le6, le7)
        | inr (inr (inl h)) ↦
            let less =
              call_if_less f.patch_pending klp_update_patch_state s s3 g3
                (λ e. settles.patch s3.task s3.world (ap (λ (x : Flags). x.patch_pending) e ∙ h))
                h in
            omega (arith, less, le5, le6, le7)
        | inr (inr (inr (inl h))) ↦
            let less =
              call_if_less f.sigpending do_signal s s4 g4
                (λ e. settles.signal s4.task s4.world (ap (λ (x : Flags). x.sigpending) e ∙ h)) h in
            omega (arith, less, le6, le7)
        | inr (inr (inr (inr (inl h)))) ↦
            let less = resume_less f.notify_resume s s5 g5 refl h in omega (arith, less, le7)
        | inr (inr (inr (inr (inr h)))) ↦
            call_if_less f.user_return_notify fire_user_return_notifiers s s6 g6
              (λ e.
                settles.notifier s6.task s6.world (ap (λ (x : Flags). x.user_return_notify) e ∙ h))
              h
      ]

  loop_total :
      (fuel : ℕ) (s : St W)
      → has_exit_work s.task.flags ≡ true
      → work s < fuel
      → (t : St W) × (exit_to_usermode_loop fuel k s.task.flags s ≡ some t)
  unfolding exit_to_usermode_loop
  loop_total zero s w h = absurd (omega arith)
  loop_total (suc fuel) s w h =
      let s' = exit_round k s.task.flags s in
      elim (Bool-cases (has_exit_work s'.task.flags)) [
        | inl more ↦
            let (t, e) =
              loop_total fuel s' more (let less = round_less s w in omega (arith, less)) in
            (t, rw (more, e))
        | inr done ↦ (s', rw done)
      ]

  prepare_exit_total :
      (fuel : ℕ) (s : St W)
      → work (call k addr_limit_user_check s) < fuel
      → (t : St W) × (prepare_exit_to_usermode fuel k s ≡ some t)
  unfolding prepare_exit_to_usermode finish_if
  prepare_exit_total fuel s h =
      let s1 = call k addr_limit_user_check s in
      elim (Bool-cases (has_exit_work s1.task.flags)) [
        | inl w ↦ let (t, e) = loop_total fuel s1 w h in (finish_exit k t, rw (w, e))
        | inr w ↦ (finish_exit k s1, rw w)
      ]

  -- If every function that the exit work calls leaves less work by some measure or leaves the work and
  -- the flags as they are, the function for a flag that is set leaves less, the flag for notify_resume
  -- counts, and the hook returns, then do_syscall_64 returns within as many rounds as that measure
  -- says.
  pub do_syscall_64_total :
      (zz_var : Hook W) (ts nr : ℕ) (s u : St W)
      → run_hook zz_var ts (run_syscall k (enter_number k nr (local_irq_enable s))) ≡ some u
      → let s1 = local_irq_disable (slow_work_if k u.task.flags (call k rseq_syscall u)) in
        (t : St W) × (do_syscall_64 (suc (work (call k addr_limit_user_check s1))) k zz_var ts nr s
          ≡ some t)
  unfolding do_syscall_64 return_slowly syscall_return_slowpath
  do_syscall_64_total zz_var ts nr s u e =
      let s1 = local_irq_disable (slow_work_if k u.task.flags (call k rseq_syscall u)) in
      let (t, q) =
        prepare_exit_total (suc (work (call k addr_limit_user_check s1))) s1 (omega arith) in
      (t, rw e q)
