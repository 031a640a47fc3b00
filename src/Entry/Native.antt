-- ===== src/Entry/Native.antt =====
-- A chain of exe_on_call (ub/zz_lkm/exe.c) against what the task would have done in user mode.
use userspace_bypass.Prelude.{
  sym, ◌∙◌, ℕ, ◌≡◌, arith, true, Option, some, inl, inr, Bool-cases, ◌==◌,
}
use userspace_bypass.Regs.{Regs}
use userspace_bypass.Lkm.Exe.{Block, ExeInfo, normal, get_exe}
use userspace_bypass.Lkm.OnCall.{
  Args, Jitted, OnCall, enter_syscall, handle_miss, report, dispatch, run_code, after_code, round,
  can_run, clac, exe_on_call,
}
use userspace_bypass.Lkm.OnCall.Chain.{Chain, stop, go, exe_on_call-Chain}
use userspace_bypass.Lkm.OnCall.Frame.{IsKept, round-IsKept}
use userspace_bypass.Entry.State.{Kernel, St}
use userspace_bypass.Entry.Syscall.{run_syscall}
use userspace_bypass.Entry.Syscall.Dispatch.{KeepsInBounds}
use userspace_bypass.Entry.Bypass.{
  HasNoX32Bit, IsFreshEntry, enter_syscall-IsFreshEntry, with_regs, kernel_machine, state_of,
  chained-run_syscall,
}

module _ {W : Type 0} (k : Kernel W) (User : St W → St W → Type 0) (AtSyscall : St W → Type 0) where
  -- Runs of user code and syscalls, in any order and number. `User s t`: user code leads from s to t.
  -- `AtSyscall s`: the instruction to come is a syscall; it finds its number in ax.
  pub data Native : St W → St W → Type 0 where
    here : {s : St W} → Native s s
    user : {s t u : St W} → User s t → Native t u → Native s u
    syscall :
        {s u : St W} {r : Regs}
        → AtSyscall s
        → IsFreshEntry s.task.regs r
        → Native (run_syscall k (s.task.regs.ax, with_regs r s)) u
        → Native s u

  Native-trans : {s t u : St W} → Native s t → Native t u → Native s u
  Native-trans here q = q
  Native-trans (user a p) q = user a (Native-trans p q)
  Native-trans (syscall at fresh p) q = syscall at fresh (Native-trans p q)

-- What the hook's machine does besides the kernel, and the parameters of this file together.
module _ {W : Type 0} (k : Kernel W) (User : St W → St W → Type 0) (AtSyscall : St W → Type 0)
    (fsbase : St W → ℕ) (virt_ptr : Option Block → Args → Regs → St W → Jitted (St W)) where
  -- The block does what user code from `rip` on does, up to a syscall or up to where it gives up; the
  -- number that it calls has no x32 bit.
  abbrev pub Translates : ℕ → Option Block → Type 0
  Translates rip code =
      (a : Args) (r : Regs) (s : St W)
      → r.ip ≡ rip
      → let j = virt_ptr code a r s in
        User (with_regs r s) (with_regs j.regs j.world)
        × (j.args.arg0 ≡ normal → AtSyscall (with_regs j.regs j.world) × HasNoX32Bit j.regs.ax)

  -- The code of every slot of the process that is ready.
  abbrev pub AllTranslated : ℕ → (ℕ → ExeInfo) → Type 0
  AllTranslated pid exes =
      (i : ℕ)
      → (exes i).status_code ≡ normal
      → (exes i).pid ≡ pid
      → Translates (exes i).rip (exes i).code_block

  IsKept-AllTranslated :
      (pid : ℕ) (f g : ℕ → ExeInfo)
      → ((i : ℕ) → IsKept (f i) (g i))
      → AllTranslated pid f
      → AllTranslated pid g
  IsKept-AllTranslated pid f g kept t i n own =
      let h = kept i in
      rw (h.same_rip, h.same_code) (t i (ground (arith, h)) (sym h.same_pid ∙ own))

  ready :
      (pid : ℕ) (s : OnCall (St W))
      → can_run pid s ≡ true
      → let e = s.exes (get_exe pid s.regs.ip) in
        (e.status_code ≡ normal) × (e.pid ≡ pid) × (s.regs.ip ≡ e.rip)
  unfolding can_run
  ready pid s c = ground arith

  report-state_of : (pos : ℕ) (s : OnCall (St W)) → state_of (report pos s) ≡ state_of s
  unfolding report
  report-state_of pos s = ground arith

  miss-state_of :
      (arg0 pos : ℕ) (s : OnCall (St W)) → state_of (handle_miss arg0 pos s) ≡ state_of s
  unfolding handle_miss
  miss-state_of arg0 pos s = ground arith

  dispatch-Native :
      (arg0 pos : ℕ) (s : OnCall (St W))
      → KeepsInBounds k
      → k.nr_syscalls ≡ 437
      → (arg0 ≡ normal → AtSyscall (state_of s) × HasNoX32Bit s.regs.ax)
      → Native k User AtSyscall
          (state_of s)
          (state_of (dispatch (kernel_machine k fsbase virt_ptr) arg0 pos s))
  unfolding dispatch
  dispatch-Native arg0 pos s keeps n x = elim (Bool-cases (arg0 == normal)) [
    | inl c ↦
        let (at, no_x32) = x (ground arith) in
        let fresh = enter_syscall-IsFreshEntry s.regs in
        rw
          (
            c,
            chained-run_syscall k fsbase virt_ptr pos s (enter_syscall s.regs) keeps n no_x32 fresh,
          )
          (Native.syscall at fresh Native.here)
    | inr c ↦ rw (c, miss-state_of arg0 pos s) Native.here
  ]

  round-Native :
      (pid : ℕ) (s : OnCall (St W))
      → KeepsInBounds k
      → k.nr_syscalls ≡ 437
      → AllTranslated pid s.exes
      → can_run pid s ≡ true
      → Native k User AtSyscall
          (state_of s)
          (state_of (round (kernel_machine k fsbase virt_ptr) pid s))
  unfolding round run_code after_code
  round-Native pid s keeps n all c =
      let m = kernel_machine k fsbase virt_ptr in
      let pos = get_exe pid s.regs.ip in
      let j = run_code m pos s in
      let (status, own, at) = ready pid s c in
      let (by_user, x) =
        all pos status own (record { arg0 = fsbase s.world; arg1 = 0 }) s.regs s.world at in
      rw (report-state_of pos (dispatch m j.args.arg0 pos (after_code s j)))
        (Native.user by_user (dispatch-Native j.args.arg0 pos (after_code s j) keeps n x))

  Chain-Native :
      (pid : ℕ) {n : ℕ} {s t : OnCall (St W)}
      → KeepsInBounds k
      → k.nr_syscalls ≡ 437
      → AllTranslated pid s.exes
      → Chain (kernel_machine k fsbase virt_ptr) pid n s t
      → Native k User AtSyscall (state_of s) (state_of t)
  unfolding clac
  Chain-Native pid keeps size all (stop c e) = rw e Native.here
  Chain-Native pid {s = s} keeps size all (go c chain) =
      let m = kernel_machine k fsbase virt_ptr in
      Native-trans k User AtSyscall (round-Native pid s keeps size all c) (
        Chain-Native pid keeps size
          (IsKept-AllTranslated pid s.exes (round m pid s).exes (λ i. round-IsKept m pid s i c) all)
          chain)

  -- Where every ready slot of the process has code that does what the user code at its address does,
  -- up to a syscall instruction with a number without the x32 bit or to where it gives up, and the
  -- kernel has 437 syscalls and an array_index_nospec that keeps an index in bounds as it is, a run of
  -- exe_on_call takes the task only where user code and, at syscall instructions, syscalls without
  -- entry and exit work would have, which find the registers as the SYSCALL instruction and the entry
  -- code leave them.
  pub exe_on_call-Native :
      (fuel pid : ℕ) (s t : OnCall (St W))
      → KeepsInBounds k
      → k.nr_syscalls ≡ 437
      → AllTranslated pid s.exes
      → exe_on_call fuel (kernel_machine k fsbase virt_ptr) pid s ≡ some t
      → Native k User AtSyscall (state_of s) (state_of t)
  exe_on_call-Native fuel pid s t keeps n all e =
      Chain-Native pid keeps n all
        (exe_on_call-Chain (kernel_machine k fsbase virt_ptr) pid fuel s t e).1
