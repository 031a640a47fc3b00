-- ===== src/Lkm/Main.antt =====
-- The module as a whole: func, zz_lkm_init and zz_lkm_exit of ub/zz_lkm/zz_lkm_main.c, with stat_init
-- and stat_exit of stat.c and exe_exit of exe.c. One call of an operation is one step; what processors
-- do at the same time is taken as done in some order.
pub mod Reach
use userspace_bypass.Prelude.{
  ℕ, ◌≤◌, ◌≡◌, Bool, true, false, Option, none, some, List, [], ltb, leb, ◌||◌, ◌^◌, ◌-◌,
  if◌then◌else◌, update,
}
use userspace_bypass.Regs.{Regs}
use userspace_bypass.Lkm.Exe.{ExeInfo, ExeTable, Allocator, exe_init}
use userspace_bypass.Lkm.Sys.{SysEnv, SysState, sys_init, sys_exit}
use userspace_bypass.Lkm.OnCall.{Machine, OnCall, Report, exe_on_call}
use userspace_bypass.Lkm.Stat.{PerCpuInfo, Event, zeroed, stat_func}

-- The globals. `zz_var` tells whether the kernel's hook points to `func`; the arrays that vmalloc gave
-- are `none` before and after.
pub record Module : Type 0 where
  pub zz_var : Bool
  pub stat_flag : ℕ
  pub info : Option (ℕ → PerCpuInfo)
  pub table : Option ExeTable
  pub sys : SysState
  pub log : List Report

-- `stat_flag < 100`, where `stat_flag` is an `int`.
unfoldable pub wants_stat : ℕ → Bool
wants_stat stat_flag = ltb stat_flag 100 || leb (2 ^ 31) stat_flag

-- The end of one syscall: the processor and task, its registers, and the two readings of the clock.
pub record Call (W : Type 0) : Type 0 where
  pub cpu_id : ℕ
  pub pid : ℕ
  pub regs : Regs
  pub world : W
  pub ts : ℕ
  pub current_time : ℕ

pub record Live : Type 0 where
  pub stat_flag : ℕ
  pub info : ℕ → PerCpuInfo
  pub table : ExeTable
  pub log : List Report

-- stat_func on the processor's own record.
unfoldable pub take_stat : Allocator → ℕ → Event → Live → Live
take_stat a cpu_id e l =
    let (info', table') = stat_func a e (l.info cpu_id) l.table in
    record l { info = update l.info cpu_id info'; table = table' }

-- What the chain leaves in the globals.
unfoldable pub settle : {W : Type 0} → Live → OnCall W → Live
settle l s = record l { table = record { exes = s.exes; added = l.table.added }; log = s.log }

-- The call of stat_func in `func`, after the chain.
unfoldable pub after_chain : {W : Type 0} → Allocator → Call W → Live → OnCall W → Live × Regs × W
after_chain a c l s =
    let e : Event = record {
      pid = c.pid;
      ip = s.regs.ip;
      ts = c.ts;
      current_time = c.current_time;
    } in
    let l' = settle l s in
    (if wants_stat l.stat_flag then take_stat a c.cpu_id e l' else l', s.regs, s.world)

-- The state in which exe_on_call starts.
unfoldable pub enter : {W : Type 0} → Call W → Live → OnCall W
enter c l = record { exes = l.table.exes; regs = c.regs; world = c.world; ac = false; log = l.log }

-- `none` means that the chain has not ended within the fuel.
unfoldable pub func :
    {W : Type 0} → ℕ → Machine W → Allocator → Call W → Live → Option (Live × Regs × W)
func fuel m a c l = elim (exe_on_call fuel m c.pid (enter c l)) [
  | none ↦ none
  | some s ↦ some (after_chain a c l s)
]

-- zz_lkm_init: the hook is set last but for the syscall table's address, which is the machine's.
unfoldable pub zz_lkm_init : (ℕ → ExeInfo) → SysEnv → Module → Module
zz_lkm_init raw env g = record g {
  info = some (λ cpu. zeroed);
  table = some (exe_init raw);
  sys = sys_init env g.sys;
  zz_var = true;
}

-- zz_lkm_exit: the hook goes first, then stat_exit, sys_exit and exe_exit.
unfoldable pub zz_lkm_exit : Module → Module
zz_lkm_exit g = record g { zz_var = false; info = none; sys = sys_exit g.sys; table = none }

-- What the hook and the file work on while the module is loaded.
unfoldable pub live : Module → Option Live
live g = with_info g.info g.table
  where
    with_info : Option (ℕ → PerCpuInfo) → Option ExeTable → Option Live
    with_info (some i) (some t) =
        some (record { stat_flag = g.stat_flag; info = i; table = t; log = g.log })
    with_info _ _ = none
