-- ===== src/Tests/Lkm.antt =====
-- The module's table, chain, statistics and file.
use mathlib.Core.List.{Memᴰ}
use userspace_bypass.Prelude.{ℕ, ◌*◌, ◌≤◌, ◌≡◌, refl, arith, ◌↔◌, ◌⊎◌, some, true, [], ◌∷◌, update}
use userspace_bypass.Lkm.Hash.{zz_hash, max_exe, max_caller}
use userspace_bypass.Lkm.Exe.{ExeInfo, normal, get_exe, init_slots, exe_init, claim, exe_add}
use userspace_bypass.Lkm.Exe.Used.{used}
use userspace_bypass.Lkm.Exe.Add.{IsSound, exe_init-IsSound, exe_add-IsSound}
use userspace_bypass.Lkm.Sys.{Write, sizeof_exe_info, sysfs_show}
use userspace_bypass.Lkm.Sys.Show.{InUse, sysfs_show_lem}
use userspace_bypass.Lkm.OnCall.{
  OnCall, enter_syscall, is_legal, count_success, count_fail, handle_syscall, handle_miss, report,
  dispatch, run_code, after_code, round, can_run, clac, exe_on_call,
}
use userspace_bypass.Lkm.OnCall.Frame.{IsKept, exe_on_call-IsKept}
use userspace_bypass.Lkm.OnCall.Round.{next_slot, round-exes}
use userspace_bypass.Lkm.Stat.{CallerInfo, PerCpuInfo, zeroed, stat_func}
use userspace_bypass.Lkm.Stat.Bounds.{stat_run, stat_run_bounds}
use userspace_bypass.Lkm.Stat.Hot.{
  HotAt, IsPlaced, EndsMilestone, stat_func-only, stat_func-IsPlaced,
}
use userspace_bypass.Lkm.Main.{Call, Live, after_chain, enter, func}
use userspace_bypass.Lkm.Main.Reach.{Reach, Step, IsOk, loaded, Reach-loaded}
use userspace_bypass.Tests.Data.{
  zero_regs, allocator, raw, fresh_table, added_table, added_table-IsSound, site, ready_table,
  ready_table-IsSound, machine, on_call, event,
}

-- A syscall of a task without code, and then a read of the file.
abbrev a_call : Call ℕ
a_call = record { cpu_id = 1; pid = 7; regs = zero_regs; world = 1; ts = 100; current_time = 200 }

abbrev after_call : Live
after_call = (after_chain allocator a_call (loaded raw 0) (clac (enter a_call (loaded raw 0)))).0

abbrev after_read : Live
after_read = record after_call { stat_flag = (sysfs_show after_call.table after_call.stat_flag).2 }

call_ends : func 1 machine allocator a_call (loaded raw 0) ≡ some (after_call, zero_regs, 1)
unfolding func exe_on_call can_run clac enter get_exe zz_hash exe_init init_slots after_chain
call_ends = refl

Reach-loaded_example :
    IsOk after_read × ((sysfs_show after_read.table after_read.stat_flag).1 ≤ 4096)
Reach-loaded_example =
    Reach-loaded {m = machine} raw 0 after_read (
      Reach.next (Reach.next Reach.here (Step.call 1 a_call zero_regs 1 call_ends))
        (Step.read refl))

-- A chain of one syscall, whose code then misses a call.
abbrev chain_end : OnCall ℕ
chain_end = clac (round machine 7 (round machine 7 on_call))

chain_ends : exe_on_call 3 machine 7 on_call ≡ some chain_end
unfolding exe_on_call can_run get_exe zz_hash clac round run_code after_code dispatch handle_syscall
    handle_miss report enter_syscall is_legal count_success count_fail exe_add exe_init init_slots
    claim
chain_ends = refl

exe_on_call-IsKept_example :
    IsSound (record { exes = chain_end.exes; added = 1 })
    × ((i : ℕ) → IsKept (on_call.exes i) (chain_end.exes i))
unfolding exe_add exe_init init_slots claim get_exe zz_hash
exe_on_call-IsKept_example =
    exe_on_call-IsKept machine 7 3 1 on_call chain_end chain_ends ready_table-IsSound

round-exes_example :
    (round machine 7 on_call).exes site
    ≡ update on_call.exes site
        (next_slot normal (record zero_regs { ip = 0x3fe; ax = 39 }) (on_call.exes site))
        site
unfolding get_exe zz_hash run_code
round-exes_example = round-exes machine 7 site on_call

-- A milestone at which one caller is hot.
abbrev hot_caller : CallerInfo
hot_caller = record { rip = 0x400; pid = 7; cnt = 901 }

abbrev hot_info : PerCpuInfo
hot_info = record zeroed { call_cnt = 30000; interested = true; caller = λ pos. hot_caller }

hot_info-EndsMilestone : EndsMilestone hot_info
hot_info-EndsMilestone = record { watched = refl; full = omega arith }

stat_func-only_example :
    IsSound (stat_func allocator event hot_info fresh_table).1
    × ((i : ℕ)
        → ((stat_func allocator event hot_info fresh_table).1.exes i ≡ fresh_table.exes i)
          ⊎ EndsMilestone hot_info × HotAt max_caller 0 hot_info.caller i)
stat_func-only_example = stat_func-only allocator event hot_info fresh_table (exe_init-IsSound raw)

stat_func-IsPlaced_example : IsPlaced hot_caller (stat_func allocator event hot_info fresh_table).1
stat_func-IsPlaced_example =
    stat_func-IsPlaced allocator event hot_info fresh_table 3 hot_info-EndsMilestone (omega arith)
      (omega arith)

stat_run_bounds_example :
    ((stat_run allocator (event ∷ event ∷ []) zeroed fresh_table).0.call_cnt ≤ 30000)
    × (((stat_run allocator (event ∷ event ∷ []) zeroed fresh_table).0.caller 3).cnt ≤ 30001)
stat_run_bounds_example = stat_run_bounds allocator (event ∷ event ∷ []) fresh_table 3 (omega arith)

sysfs_show_example :
    ((sysfs_show ready_table 0).1 ≤ 4096)
    × ((sysfs_show ready_table 0).1 ≡ sizeof_exe_info * used max_exe ready_table.exes)
    × ((e : ExeInfo) → Memᴰ e (sysfs_show ready_table 0).0 ↔ InUse max_exe 0 ready_table.exes e)
sysfs_show_example = sysfs_show_lem ready_table 0 ready_table-IsSound

-- A write of two bytes that fits, and one that does not.
abbrev a_write : ℕ → Write
a_write offset = record {
  head = record { status_code = normal; pid = 7; rip = 0x400; offset = offset };
  body = 144 ∷ 195 ∷ [];
  count = 26;
}

exe_add-IsSound_example : IsSound (exe_add allocator 8 0x402 added_table)
exe_add-IsSound_example = exe_add-IsSound allocator 8 0x402 added_table added_table-IsSound
