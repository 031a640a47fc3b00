-- ===== src/Lkm/OnCall/Chain.antt =====
-- The chain of translated blocks and syscalls as a relation.
use mathlib.Core.Option.{some-injective}
use userspace_bypass.Prelude.{
  sym, ◌∙◌, ◌≢◌, ℕ, zero, suc, ◌≡◌, true, false, some, Bool-cases, inl, inr,
}
use userspace_bypass.Lkm.OnCall.{Machine, OnCall, round, can_run, clac, exe_on_call}

-- `Chain m pid n s t`: from s, n rounds are run and then the loop is left with t.
pub data Chain {W : Type 0} (m : Machine W) (pid : ℕ) : ℕ → OnCall W → OnCall W → Type 0 where
  stop : {s t : OnCall W} → can_run pid s ≡ false → t ≡ clac s → Chain m pid zero s t
  go :
      {n : ℕ} {s t : OnCall W}
      → can_run pid s ≡ true
      → Chain m pid n (round m pid s) t
      → Chain m pid (suc n) s t

module _ {W : Type 0} (m : Machine W) (pid : ℕ) where
  call_go :
      (fuel : ℕ) (s : OnCall W)
      → can_run pid s ≡ true
      → exe_on_call (suc fuel) m pid s ≡ exe_on_call fuel m pid (round m pid s)
  unfolding exe_on_call
  call_go fuel s c = rw c

  call_stop :
      (fuel : ℕ) (s : OnCall W)
      → can_run pid s ≡ false
      → exe_on_call (suc fuel) m pid s ≡ some (clac s)
  unfolding exe_on_call
  call_stop fuel s c = rw c

  exe_on_call-zero : (s t : OnCall W) → exe_on_call zero m pid s ≢ some t
  unfolding exe_on_call
  exe_on_call-zero s t e = cc

  -- What the loop returns is the end of a chain.
  pub exe_on_call-Chain :
      (fuel : ℕ) (s t : OnCall W) → exe_on_call fuel m pid s ≡ some t → (n : ℕ) × Chain m pid n s t
  exe_on_call-Chain zero s t e = absurd (exe_on_call-zero s t e)
  exe_on_call-Chain (suc fuel) s t e = elim (Bool-cases (can_run pid s)) [
    | inl c ↦
        let (n, chain) = exe_on_call-Chain fuel (round m pid s) t (sym (call_go fuel s c) ∙ e) in
        (suc n, go c chain)
    | inr c ↦ (zero, stop c (some-injective _ _ (sym e ∙ call_stop fuel s c)))
  ]
