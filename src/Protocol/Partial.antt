-- ===== src/Protocol/Partial.antt =====
-- A transfer that is cut off: no slot becomes executable before the last packet.
use mathlib.Core.List.{append-ne-nil_of_right_ne-nil}
use userspace_bypass.Prelude.{
  ℕ, zero, suc, ◌+◌, ◌-◌, ◌≡◌, ◌≢◌, arith, some, List, [], ◌∷◌, ◌++◌, inl, inr, length, take,
  Option-cases,
}
use userspace_bypass.Lkm.Exe.{ExeTable, normal, un_init}
use userspace_bypass.Lkm.Sys.{Write, sysfs_store}
use userspace_bypass.Daemon.WriteSys.{to_copy_len, write_loop, write_sys, sizeof_i_buf}
use userspace_bypass.Protocol.{store_all}
use userspace_bypass.Protocol.Transfer.{write_loop-zero}

-- Every write carries the status of an unfinished transfer.
abbrev AllUnfinished : List Write → Type 0
AllUnfinished [] = Unit {0}
AllUnfinished (w ∷ ws) = (w.head.status_code ≡ un_init) × AllUnfinished ws

-- A round that is followed by another is not the last.
round_unfinished :
    (fuel pid rip : ℕ) (i_buf : List ℕ) (off rest : ℕ) (w : Write) (ws : List Write)
    → ws ≢ []
    → write_loop (suc fuel) pid rip i_buf off rest ≡ some (w ∷ ws)
    → (w.head.status_code ≡ un_init)
      × (write_loop fuel pid rip i_buf (off + to_copy_len rest) (rest - to_copy_len rest) ≡ some ws)
unfolding write_loop
round_unfinished fuel pid rip i_buf off rest w ws more e =
    ground (arith, write_loop-zero fuel pid rip i_buf (off + to_copy_len rest))

write_loop-AllUnfinished :
    (fuel pid rip : ℕ) (i_buf : List ℕ) (off rest : ℕ) (ps qs : List Write) (q : Write)
    → write_loop fuel pid rip i_buf off rest ≡ some (ps ++ q ∷ qs)
    → AllUnfinished ps
write_loop-AllUnfinished fuel pid rip i_buf off rest [] qs q e = tt
write_loop-AllUnfinished zero pid rip i_buf off rest (w ∷ ps) qs q e =
    unfold write_loop in ground arith
write_loop-AllUnfinished (suc fuel) pid rip i_buf off rest (w ∷ ps) qs q e =
    let (u, more) =
      round_unfinished fuel pid rip i_buf off rest w (ps ++ q ∷ qs)
        (λ n. append-ne-nil_of_right_ne-nil ps (λ m. cc) n) e in
    (
      u,
      write_loop-AllUnfinished fuel pid rip i_buf (off + to_copy_len rest) (rest - to_copy_len rest)
          ps qs q more,
    )

store_unfinished :
    (t u : ExeTable) (w : Write) (i : ℕ)
    → w.head.status_code ≡ un_init
    → sysfs_store t w ≡ some u
    → (t.exes i).status_code ≢ normal
    → (u.exes i).status_code ≢ normal
unfolding sysfs_store
store_unfinished t u w i s e h = ground arith

store_all_unfinished :
    (t u : ExeTable) (ws : List Write) (i : ℕ)
    → AllUnfinished ws
    → store_all t ws ≡ some u
    → (t.exes i).status_code ≢ normal
    → (u.exes i).status_code ≢ normal
unfolding store_all
store_all_unfinished t u [] i a e h = ground arith
store_all_unfinished t u (w ∷ ws) i a e h = elim (Option-cases (sysfs_store t w)) [
  | inl f ↦ ground arith
  | inr (v, f) ↦
      store_all_unfinished v u ws i a.1 (rw (f, store_all) at e) (store_unfinished t v w i a.0 f h)
]

-- Short of the last packet of a transfer, no slot that was not `normal` has become `normal` by it.
pub transfer_cut_off :
    (file : List ℕ) (pid rip : ℕ) (ps qs : List Write) (q : Write) (t u : ExeTable) (i : ℕ)
    → write_sys (some file) pid rip ≡ some (ps ++ q ∷ qs)
    → store_all t ps ≡ some u
    → (t.exes i).status_code ≢ normal
    → (u.exes i).status_code ≢ normal
unfolding write_sys
transfer_cut_off file pid rip ps qs q t u i e s h =
    store_all_unfinished t u ps i
      (write_loop-AllUnfinished (length (take sizeof_i_buf file)) pid rip (take sizeof_i_buf file) 0
        (length (take sizeof_i_buf file)) ps qs q e)
      s h
