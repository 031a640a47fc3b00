-- ===== src/Lkm/Stat/Hot.antt =====
-- Which sites the statistics hand to exe_add.
use native.Mathlib.Decide.{dec_lt}
use userspace_bypass.Prelude.{
  u64, ℕ, zero, suc, ◌+◌, ◌≤◌, ◌<◌, ◌≡◌, refl, ◌∙◌, arith, true, false, ◌⊎◌, inl, inr, ltb, ltb→lt,
  Bool-cases,
}
use userspace_bypass.Lkm.Hash.{max_caller}
use userspace_bypass.Lkm.Exe.{ExeTable, Allocator, get_exe, claim, exe_add}
use userspace_bypass.Lkm.Exe.Used.{is_used}
use userspace_bypass.Lkm.Exe.Add.{IsSound, exe_add_cases, exe_add-IsSound}
use userspace_bypass.Lkm.Stat.{
  CallerInfo, PerCpuInfo, Event, hot_caller_th, milestone_cnt, add_if_hot, add_hot, milestone,
  bump_calls, stat_func,
}

-- One of the n callers from `from` on is hot and belongs to slot i.
abbrev pub HotAt : ℕ → ℕ → (ℕ → CallerInfo) → ℕ → Type 0
HotAt n from caller i =
    (pos : ℕ) × (from ≤ pos)
    × (pos < from + n)
    × (hot_caller_th < (caller pos).cnt)
    × (get_exe (caller pos).pid (caller pos).rip ≡ i)

-- After exe_add the slot of the key is in use, or the table is full.
abbrev pub IsPlaced : CallerInfo → ExeTable → Type 0
IsPlaced c t = (is_used (t.exes (get_exe c.pid c.rip)) ≡ true) ⊎ (62 < t.added)

-- One round, on both branches: what it may touch, what it leaves, and what becomes of a hot caller.
add_if_hot_cases :
    (a : Allocator) (c : CallerInfo) (t : ExeTable)
    → (add_if_hot a c t ≡ t) × (hot_caller_th < c.cnt → IsPlaced c t)
      ⊎ (hot_caller_th < c.cnt)
        × (is_used (t.exes (get_exe c.pid c.rip)) ≡ false)
        × (add_if_hot a c t ≡ exe_add a c.pid c.rip t)
unfolding add_if_hot
add_if_hot_cases a c t = ground (arith, exe_add_cases a c.pid c.rip t)

add_if_hot-IsSound :
    (a : Allocator) (c : CallerInfo) (t : ExeTable) → IsSound t → IsSound (add_if_hot a c t)
add_if_hot-IsSound a c t s = elim (add_if_hot_cases a c t) [
  | inl (e, _) ↦ rw e s
  | inr (_, _, e) ↦ rw e (exe_add-IsSound a c.pid c.rip t s)
]

add_if_hot-only :
    (a : Allocator) (c : CallerInfo) (i : ℕ) (t : ExeTable)
    → ((add_if_hot a c t).exes i ≡ t.exes i)
      ⊎ (hot_caller_th < c.cnt) × (get_exe c.pid c.rip ≡ i) × (is_used (t.exes i) ≡ false)
add_if_hot-only a c i t = ground (arith, add_if_hot_cases a c t, exe_add_cases a c.pid c.rip t)

add_if_hot-IsPlaced :
    (a : Allocator) (c : CallerInfo) (t : ExeTable)
    → hot_caller_th < c.cnt
    → IsPlaced c (add_if_hot a c t)
unfolding is_used claim
add_if_hot-IsPlaced a c t h = ground (arith, add_if_hot_cases a c t, exe_add_cases a c.pid c.rip t)

-- A slot in use and a full table stay so.
add_if_hot_mono :
    (a : Allocator) (c d : CallerInfo) (t : ExeTable) → IsPlaced d t → IsPlaced d (add_if_hot a c t)
unfolding is_used claim
add_if_hot_mono a c d t p = ground (arith, add_if_hot_cases a c t, exe_add_cases a c.pid c.rip t)

add_hot-IsSound :
    (a : Allocator) (n from : ℕ) (caller : ℕ → CallerInfo) (t : ExeTable)
    → IsSound t
    → IsSound (add_hot a n from caller t)
unfolding add_hot
add_hot-IsSound a zero from caller t s = s
add_hot-IsSound a (suc n) from caller t s =
    add_hot-IsSound a n (suc from) caller _ (add_if_hot-IsSound a (caller from) t s)

add_hot-only :
    (a : Allocator) (n from i : ℕ) (caller : ℕ → CallerInfo) (t : ExeTable)
    → ((add_hot a n from caller t).exes i ≡ t.exes i) ⊎ HotAt n from caller i
unfolding add_hot
add_hot-only a zero from i caller t = inl refl
add_hot-only a (suc n) from i caller t =
    elim (add_hot-only a n (suc from) i caller (add_if_hot a (caller from) t)) [
      | inr (pos, lo, hi, hot, at) ↦ inr (pos, omega arith, omega arith, hot, at)
      | inl e ↦ elim (add_if_hot-only a (caller from) i t) [
        | inl f ↦ inl (e ∙ f)
        | inr (hot, at, _) ↦ inr (from, omega arith, omega arith, hot, at)
      ]
    ]

add_hot_mono :
    (a : Allocator) (n from : ℕ) (caller : ℕ → CallerInfo) (d : CallerInfo) (t : ExeTable)
    → IsPlaced d t
    → IsPlaced d (add_hot a n from caller t)
unfolding add_hot
add_hot_mono a zero from caller d t p = p
add_hot_mono a (suc n) from caller d t p =
    add_hot_mono a n (suc from) caller d _ (add_if_hot_mono a (caller from) d t p)

add_hot-IsPlaced :
    (a : Allocator) (n from pos : ℕ) (caller : ℕ → CallerInfo) (t : ExeTable)
    → from ≤ pos
    → pos < from + n
    → hot_caller_th < (caller pos).cnt
    → IsPlaced (caller pos) (add_hot a n from caller t)
unfolding add_hot
add_hot-IsPlaced a zero from pos caller t lo hi hot = absurd (omega arith)
add_hot-IsPlaced a (suc n) from pos caller t lo hi hot = elim (dec_lt from pos) [
  | yes later ↦ add_hot-IsPlaced a n (suc from) pos caller _ later (omega arith) hot
  | no now ↦
      let e : pos ≡ from = omega arith in
      rw e (
        add_hot_mono a n (suc from) caller (caller from) _
          (add_if_hot-IsPlaced a (caller from) t (rw e at hot)))
]

-- The syscall that completes a milestone, on a processor that was watched.
pub record EndsMilestone (info : PerCpuInfo) : Type 0 where
  pub watched : info.interested ≡ true
  pub full : milestone_cnt < u64 (info.call_cnt + 1)

stat_func_cases :
    (a : Allocator) (e : Event) (info : PerCpuInfo) (t : ExeTable)
    → EndsMilestone info × ((stat_func a e info t).1 ≡ add_hot a max_caller 0 info.caller t)
      ⊎ ¬ EndsMilestone info × ((stat_func a e info t).1 ≡ t)
unfolding stat_func bump_calls milestone
stat_func_cases a e info t = elim (Bool-cases (ltb milestone_cnt (u64 (info.call_cnt + 1)))) [
  | inr c ↦ inr (λ m. ground (arith, m.full), rw c)
  | inl c ↦ elim (Bool-cases info.interested) [
    | inl w ↦ inl (record { watched = w; full = ltb→lt _ _ c }, rw (c, w))
    | inr w ↦ inr (λ m. cc (m.watched), rw (c, w))
  ]
]

-- A syscall keeps a sound table sound and changes a slot only if it completes a milestone of 30000
-- calls on a watched processor and the slot is that of a caller with more than 900 short calls since
-- the last one.
pub stat_func-only :
    (a : Allocator) (e : Event) (info : PerCpuInfo) (t : ExeTable)
    → IsSound t
    → IsSound (stat_func a e info t).1
      × ((i : ℕ)
          → ((stat_func a e info t).1.exes i ≡ t.exes i)
            ⊎ EndsMilestone info × HotAt max_caller 0 info.caller i)
stat_func-only a e info t s = elim (stat_func_cases a e info t) [
  | inr (_, q) ↦ rw q (s, λ i. inl refl)
  | inl (m, q) ↦ rw q (
    add_hot-IsSound a max_caller 0 info.caller t s,
    λ i. elim (add_hot-only a max_caller 0 i info.caller t) [
      | inl same ↦ inl same
      | inr hot ↦ inr (m, hot)
    ],
  )
]

-- At a syscall that completes a milestone of 30000 calls on a watched processor every caller with more
-- than 900 short calls has its slot in use afterwards, or the table is full.
pub stat_func-IsPlaced :
    (a : Allocator) (e : Event) (info : PerCpuInfo) (t : ExeTable) (pos : ℕ)
    → EndsMilestone info
    → pos < max_caller
    → hot_caller_th < (info.caller pos).cnt
    → IsPlaced (info.caller pos) (stat_func a e info t).1
stat_func-IsPlaced a e info t pos m lt hot = elim (stat_func_cases a e info t) [
  | inr (n, _) ↦ absurd (n m)
  | inl (_, q) ↦
      rw q (add_hot-IsPlaced a max_caller 0 pos info.caller t (omega arith) (omega arith) hot)
]
