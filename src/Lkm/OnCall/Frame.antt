-- ===== src/Lkm/OnCall/Frame.antt =====
-- What a chain leaves alone in the table, and what it may change.
use userspace_bypass.Prelude.{
  Bool-cases, ℕ, zero, suc, ◌≡◌, refl, ◌∙◌, arith, true, some, ◌⊎◌, inl, inr, ◌==◌,
}
use userspace_bypass.Lkm.Hash.{max_exe}
use userspace_bypass.Lkm.Exe.{ExeInfo, normal, call_miss, ij_miss, get_exe}
use userspace_bypass.Lkm.Exe.Used.{is_used, used}
use userspace_bypass.Lkm.Exe.Add.{IsSound}
use userspace_bypass.Lkm.OnCall.{
  Machine, OnCall, handle_syscall, handle_miss, dispatch, run_code, after_code, report, round,
  can_run, clac, exe_on_call,
}
use userspace_bypass.Lkm.OnCall.Chain.{Chain, stop, go, exe_on_call-Chain}

-- A slot keeps its key and its code, and its status too unless it was `normal` and missed a target.
pub record IsKept (e e' : ExeInfo) : Type 0 where
  pub same_pid : e'.pid ≡ e.pid
  pub same_rip : e'.rip ≡ e.rip
  pub same_code : e'.code_block ≡ e.code_block
  pub status :
      (e'.status_code ≡ e.status_code)
      ⊎ (e.status_code ≡ normal) × ((e'.status_code ≡ call_miss) ⊎ (e'.status_code ≡ ij_miss))

IsKept-refl : (e : ExeInfo) → IsKept e e
IsKept-refl e = record { same_pid = refl; same_rip = refl; same_code = refl; status = inl refl }

IsKept-trans : (a b c : ExeInfo) → IsKept a b → IsKept b c → IsKept a c
IsKept-trans a b c h k = ground arith

module _ {W : Type 0} (m : Machine W) (pid : ℕ) where
  handle_syscall-IsKept :
      (pos i : ℕ) (s : OnCall W) → IsKept (s.exes i) ((handle_syscall m pos s).exes i)
  unfolding handle_syscall
  handle_syscall-IsKept pos i s = ground arith

  handle_miss-IsKept :
      (arg0 pos i : ℕ) (s : OnCall W)
      → (s.exes pos).status_code ≡ normal
      → IsKept (s.exes i) ((handle_miss arg0 pos s).exes i)
  unfolding handle_miss
  handle_miss-IsKept arg0 pos i s n = ground arith

  pub report-exes : (pos : ℕ) (s : OnCall W) → (report pos s).exes ≡ s.exes
  unfolding report
  report-exes pos s = ground arith

  dispatch-IsKept :
      (arg0 pos i : ℕ) (s : OnCall W)
      → (s.exes pos).status_code ≡ normal
      → IsKept (s.exes i) ((dispatch m arg0 pos s).exes i)
  unfolding dispatch
  dispatch-IsKept arg0 pos i s n = elim (Bool-cases (arg0 == normal)) [
    | inl c ↦ rw c (handle_syscall-IsKept pos i s)
    | inr c ↦ rw c (handle_miss-IsKept arg0 pos i s n)
  ]

  pub can_run-normal :
      (s : OnCall W) → can_run pid s ≡ true → (s.exes (get_exe pid s.regs.ip)).status_code ≡ normal
  unfolding can_run
  can_run-normal s c = ground arith

  pub round-IsKept :
      (s : OnCall W) (i : ℕ) → can_run pid s ≡ true → IsKept (s.exes i) ((round m pid s).exes i)
  unfolding round after_code
  round-IsKept s i c =
      let pos = get_exe pid s.regs.ip in
      let j = run_code m pos s in
      rw (report-exes pos (dispatch m j.args.arg0 pos (after_code s j)))
        (dispatch-IsKept j.args.arg0 pos i (after_code s j) (can_run-normal s c))

  pub Chain-IsKept :
      {n : ℕ} {s t : OnCall W} → Chain m pid n s t → (i : ℕ) → IsKept (s.exes i) (t.exes i)
  unfolding clac
  Chain-IsKept (stop c e) i = rw e (IsKept-refl _)
  Chain-IsKept (go c chain) i = IsKept-trans _ _ _ (round-IsKept _ i c) (Chain-IsKept chain i)

used-ext :
    (n : ℕ) (f g : ℕ → ExeInfo) → ((i : ℕ) → is_used (f i) ≡ is_used (g i)) → used n f ≡ used n g
unfolding used
used-ext zero f g h = refl
used-ext (suc n) f g h = rw (h n, used-ext n f g h)

IsKept-used : (e e' : ExeInfo) → IsKept e e' → is_used e ≡ is_used e'
unfolding is_used
IsKept-used e e' k = ground arith

-- A run of exe_on_call that returns keeps a sound table sound, changes no slot's key or code, and a
-- status only from `normal` to a miss.
pub exe_on_call-IsKept :
    {W : Type 0} (m : Machine W) (pid fuel added : ℕ) (s t : OnCall W)
    → exe_on_call fuel m pid s ≡ some t
    → IsSound (record { exes = s.exes; added = added })
    → IsSound (record { exes = t.exes; added = added }) × ((i : ℕ) → IsKept (s.exes i) (t.exes i))
exe_on_call-IsKept m pid fuel added s t e sound = (
  record {
    counted = rw (← used-ext max_exe s.exes t.exes same) sound.counted;
    capped = sound.capped;
    keyed = λ i h u.
        let u' : is_used (s.exes i) ≡ true = same i ∙ u in
        let k = kept i in rw (k.same_pid, k.same_rip) (sound.keyed i h u');
  },
  kept,
)
  where
    kept : (i : ℕ) → IsKept (s.exes i) (t.exes i)
    kept = Chain-IsKept m pid (exe_on_call-Chain m pid fuel s t e).1

    same : (i : ℕ) → is_used (s.exes i) ≡ is_used (t.exes i)
    same i = IsKept-used (s.exes i) (t.exes i) (kept i)
