-- ===== src/Lkm/Stat.antt =====
-- The search for hot syscall sites, ub/zz_lkm/stat.c. `info` is one struct per_cpu_info, that of the
-- processor on which the syscall ends; the array of them is in Lkm.Main.
pub mod Bounds
pub mod Hot
use userspace_bypass.Prelude.{
  ℕ, zero, suc, ◌+◌, ◌%◌, ◌≡◌, Bool, true, false, ltb, ◌==◌, if◌then◌else◌, update, u64, sub64,
}
use userspace_bypass.Lkm.Hash.{zz_hash, max_caller}
use userspace_bypass.Lkm.Exe.{ExeTable, Allocator, exe_add}

abbrev pub syscall_short_th : ℕ
syscall_short_th = 1300

abbrev pub hot_caller_th : ℕ
hot_caller_th = 900

abbrev pub milestone_cnt : ℕ
milestone_cnt = 30000

abbrev pub milestone_duration_th : ℕ
milestone_duration_th = 1000000000

pub record CallerInfo : Type 0 where
  pub rip : ℕ
  pub pid : ℕ
  pub cnt : ℕ

pub record PerCpuInfo : Type 0 where
  pub last_caller : ℕ
  pub last_ts : ℕ
  pub call_cnt : ℕ
  pub milestone_ts : ℕ
  pub caller : ℕ → CallerInfo
  pub interested : Bool

-- What stat_init's memset leaves.
unfoldable pub zeroed : PerCpuInfo
zeroed = record {
  last_caller = 0;
  last_ts = 0;
  call_cnt = 0;
  milestone_ts = 0;
  caller = λ pos. record { rip = 0; pid = 0; cnt = 0 };
  interested = false;
}

-- The syscall that ends: its task, its return address, its start and its end.
pub record Event : Type 0 where
  pub pid : ℕ
  pub ip : ℕ
  pub ts : ℕ
  pub current_time : ℕ

-- One round: a hot caller goes to exe_add.
unfoldable pub add_if_hot : Allocator → CallerInfo → ExeTable → ExeTable
add_if_hot a c t = if ltb hot_caller_th c.cnt then exe_add a c.pid c.rip t else t

-- The loop over `caller`, with n rounds left at `pos`.
unfoldable pub add_hot : Allocator → ℕ → ℕ → (ℕ → CallerInfo) → ExeTable → ExeTable
add_hot a zero pos caller t = t
add_hot a (suc n) pos caller t = add_hot a n (suc pos) caller (add_if_hot a (caller pos) t)

-- The same loop's `my_caller->cnt = 0`.
unfoldable pub clear_cnts : (ℕ → CallerInfo) → ℕ → CallerInfo
clear_cnts caller pos = if ltb pos max_caller then record (caller pos) { cnt = 0 } else caller pos

-- The block at a milestone.
unfoldable pub milestone : Allocator → ℕ → PerCpuInfo → ExeTable → PerCpuInfo × ExeTable
milestone a current_time info t =
    let i = record info {
      caller = if info.interested then clear_cnts info.caller else info.caller;
      call_cnt = 0;
      interested = ltb (sub64 current_time info.milestone_ts) milestone_duration_th;
      milestone_ts = current_time;
    } in
    (i, if info.interested then add_hot a max_caller 0 info.caller t else t)

-- The counter for a short syscall of the last caller.
unfoldable pub count_call : ℕ → ℕ → CallerInfo → CallerInfo
count_call pid last_caller c =
    let c' = if c.cnt == 0 then record c { pid = pid; rip = last_caller } else c in
    if c'.rip == last_caller then record c' { cnt = u64 (c'.cnt + 1) } else c'

-- The position in `caller`.
unfoldable pub caller_pos : ℕ → ℕ → ℕ
caller_pos pid last_caller = zz_hash pid last_caller % max_caller

-- The block under `if(my_info->interested)`.
unfoldable pub watch : Event → PerCpuInfo → PerCpuInfo
watch e info =
    let pos = caller_pos e.pid info.last_caller in
    if info.interested
    then record info {
      caller =
          if ltb (sub64 e.ts info.last_ts) syscall_short_th
          then update info.caller pos (count_call e.pid info.last_caller (info.caller pos))
          else info.caller;
      last_ts = e.current_time;
      last_caller = e.ip;
    }
    else info

unfoldable pub bump_calls : PerCpuInfo → PerCpuInfo
bump_calls info = record info { call_cnt = u64 (info.call_cnt + 1) }

unfoldable pub stat_func : Allocator → Event → PerCpuInfo → ExeTable → PerCpuInfo × ExeTable
stat_func a e info t =
    let i = bump_calls info in
    let (i', t') =
      if ltb milestone_cnt i.call_cnt then milestone a e.current_time i t else (i, t) in
    (watch e i', t')
