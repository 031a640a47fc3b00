-- ===== src/Lkm/Stat/Bounds.antt =====
-- The counters of the statistics stay small, so none of them wraps.
use userspace_bypass.Prelude.{
  List, [], ◌∷◌, ℕ, zero, suc, ◌+◌, ◌≤◌, ◌<◌, ◌≡◌, refl, arith, false, inl, inr, ltb, update,
  Bool-cases,
}
use userspace_bypass.Lkm.Hash.{max_caller}
use userspace_bypass.Lkm.Exe.{ExeTable, Allocator}
use userspace_bypass.Lkm.Stat.{
  CallerInfo, PerCpuInfo, Event, zeroed, milestone_cnt, clear_cnts, milestone, count_call,
  caller_pos, watch, bump_calls, stat_func,
}

caller_pos-lt : (pid ip : ℕ) → caller_pos pid ip < max_caller
unfolding caller_pos
caller_pos-lt pid ip = omega arith

-- The sum of the counters of the first n callers.
pub total : ℕ → (ℕ → CallerInfo) → ℕ
total zero f = 0
total (suc n) f = total n f + (f n).cnt

-- Between two syscalls: at most one short call is counted for each call since the milestone, and
-- nothing is counted on a processor that is not watched.
pub record IsBounded (info : PerCpuInfo) : Type 0 where
  pub calls : info.call_cnt ≤ milestone_cnt
  pub shorts : total max_caller info.caller ≤ info.call_cnt + 1
  pub idle : info.interested ≡ false → total max_caller info.caller ≡ 0

total-update_above :
    (n : ℕ) (f : ℕ → CallerInfo) (i : ℕ) (v : CallerInfo)
    → n ≤ i
    → total n (update f i v) ≡ total n f
unfolding total
total-update_above zero f i v h = refl
total-update_above (suc n) f i v h = ground (arith, total-update_above n f i v)

total-update :
    (n : ℕ) (f : ℕ → CallerInfo) (i : ℕ) (v : CallerInfo)
    → i < n
    → total n (update f i v) + (f i).cnt ≡ total n f + v.cnt
unfolding total
total-update zero f i v h = elim h [ ]
total-update (suc n) f i v h = ground (arith, total-update n f i v, total-update_above n f i v)

total-clear_cnts : (n : ℕ) (f : ℕ → CallerInfo) → n ≤ max_caller → total n (clear_cnts f) ≡ 0
unfolding total clear_cnts
total-clear_cnts zero f h = refl
total-clear_cnts (suc n) f h = ground (arith, total-clear_cnts n f)

count_call-le : (pid ip : ℕ) (c : CallerInfo) → (count_call pid ip c).cnt ≤ c.cnt + 1
unfolding count_call
count_call-le pid ip c = ground arith

pub zeroed-IsBounded : IsBounded zeroed
unfolding zeroed total
zeroed-IsBounded = ground arith

watch-IsBounded :
    (e : Event) (info : PerCpuInfo)
    → info.call_cnt ≤ milestone_cnt
    → total max_caller info.caller ≤ info.call_cnt
    → (info.interested ≡ false → total max_caller info.caller ≡ 0)
    → IsBounded (watch e info)
unfolding watch
watch-IsBounded e info c h idle = ground (
  arith,
  total-update max_caller info.caller (caller_pos e.pid info.last_caller)
      (count_call e.pid info.last_caller (info.caller (caller_pos e.pid info.last_caller)))
      (caller_pos-lt e.pid info.last_caller),
  count_call-le e.pid info.last_caller (info.caller (caller_pos e.pid info.last_caller)),
)

milestone-total :
    (a : Allocator) (now : ℕ) (info : PerCpuInfo) (t : ExeTable)
    → (info.interested ≡ false → total max_caller info.caller ≡ 0)
    → total max_caller (milestone a now info t).0.caller ≡ 0
unfolding milestone
milestone-total a now info t idle = elim (Bool-cases info.interested) [
  | inl w ↦ rw w (total-clear_cnts max_caller info.caller (omega arith))
  | inr w ↦ rw w (idle w)
]

milestone-call_cnt :
    (a : Allocator) (now : ℕ) (info : PerCpuInfo) (t : ExeTable)
    → (milestone a now info t).0.call_cnt ≡ 0
unfolding milestone
milestone-call_cnt a now info t = refl

-- Every syscall keeps the bounds.
pub stat_func-IsBounded :
    (a : Allocator) (e : Event) (info : PerCpuInfo) (t : ExeTable)
    → IsBounded info
    → IsBounded (stat_func a e info t).0
unfolding stat_func bump_calls
stat_func-IsBounded a e info t b =
    elim (Bool-cases (ltb milestone_cnt (bump_calls info).call_cnt)) [
      | inl c ↦
          let zero_sum = milestone-total a e.current_time (bump_calls info) t b.idle in
          let z = milestone-call_cnt a e.current_time (bump_calls info) t in
          rw c (watch-IsBounded e _ (omega (arith, z)) (omega (arith, zero_sum)) (λ _. zero_sum))
      | inr c ↦ rw c (watch-IsBounded e _ (ground arith) (ground arith) b.idle)
    ]

-- Many syscalls on one processor.
unfoldable pub stat_run : Allocator → List Event → PerCpuInfo → ExeTable → PerCpuInfo × ExeTable
stat_run a [] info t = (info, t)
stat_run a (e ∷ es) info t = let (info', t') = stat_func a e info t in stat_run a es info' t'

stat_run-IsBounded :
    (a : Allocator) (es : List Event) (info : PerCpuInfo) (t : ExeTable)
    → IsBounded info
    → IsBounded (stat_run a es info t).0
unfolding stat_run
stat_run-IsBounded a [] info t b = b
stat_run-IsBounded a (e ∷ es) info t b =
    stat_run-IsBounded a es (stat_func a e info t).0 (stat_func a e info t).1
      (stat_func-IsBounded a e info t b)

cnt-le-total : (n pos : ℕ) (f : ℕ → CallerInfo) → pos < n → (f pos).cnt ≤ total n f
unfolding total
cnt-le-total zero pos f h = elim h [ ]
cnt-le-total (suc n) pos f h = grind (arith, cnt-le-total n pos f)

-- After any syscalls from the start, call_cnt is at most 30000 and no caller's counter above 30001.
pub stat_run_bounds :
    (a : Allocator) (es : List Event) (t : ExeTable) (pos : ℕ)
    → pos < max_caller
    → ((stat_run a es zeroed t).0.call_cnt ≤ 30000)
      × (((stat_run a es zeroed t).0.caller pos).cnt ≤ 30001)
stat_run_bounds a es t pos h =
    let b = stat_run-IsBounded a es zeroed t zeroed-IsBounded in
    (
      b.calls,
      omega (
        arith,
        b.calls,
        b.shorts,
        cnt-le-total max_caller pos (stat_run a es zeroed t).0.caller h,
      ),
    )
