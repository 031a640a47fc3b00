-- ===== src/Tests/Data.antt =====
-- A module with one site, 7 at 0x400, and the machine below it.
use userspace_bypass.Prelude.{
  ℕ, ◌-◌, refl, true, false, some, [], ◌==◌, if◌then◌else◌, update, replicate,
}
use userspace_bypass.Regs.{Regs}
use userspace_bypass.Lkm.Hash.{zz_hash}
use userspace_bypass.Lkm.Exe.{
  Block, ExeInfo, ExeTable, Allocator, normal, call_miss, get_exe, init_slots, exe_init, claim,
  exe_add,
}
use userspace_bypass.Lkm.Exe.Used.{is_used, get_exe-lt}
use userspace_bypass.Lkm.Exe.Add.{IsSound, exe_init-IsSound, exe_add-IsSound, write_slot-IsSound}
use userspace_bypass.Lkm.OnCall.{Machine, OnCall}
use userspace_bypass.Lkm.Stat.{Event}

abbrev pub zero_regs : Regs
zero_regs = record {
  r15 = 0;
  r14 = 0;
  r13 = 0;
  r12 = 0;
  bp = 0;
  bx = 0;
  r11 = 0;
  r10 = 0;
  r9 = 0;
  r8 = 0;
  ax = 0;
  cx = 0;
  dx = 0;
  si = 0;
  di = 0;
  orig_ax = 0;
  ip = 0x400;
  cs = 0;
  flags = 2;
  sp = 0;
  ss = 0;
}

abbrev pub block : Block
block = record { bytes = replicate 8 0; executable = true }

abbrev pub allocator : Allocator
allocator = record { vmalloc = λ n size. some block; set_memory_x = λ mem pages. mem }

-- What vmalloc left in the array.
abbrev pub raw : ℕ → ExeInfo
raw i = record {
  status_code = 5;
  pid = 6;
  rip = i;
  code_block = some block;
  jump_from = 0;
  tgt_addr = 0;
  success_cnt = 0;
  fail_cnt = 1;
}

abbrev pub fresh_table : ExeTable
fresh_table = exe_init raw

abbrev pub added_table : ExeTable
added_table = exe_add allocator 7 0x400 fresh_table

abbrev pub site : ℕ
site = get_exe 7 0x400

abbrev pub ready_slot : ExeInfo
ready_slot = record (added_table.exes site) { status_code = normal }

abbrev pub ready_table : ExeTable
ready_table = record added_table { exes = update added_table.exes site ready_slot }

pub added_table-IsSound : IsSound added_table
added_table-IsSound = exe_add-IsSound allocator 7 0x400 fresh_table (exe_init-IsSound raw)

pub ready_table-IsSound : IsSound ready_table
unfolding exe_add exe_init init_slots claim is_used get_exe zz_hash
ready_table-IsSound =
    write_slot-IsSound added_table site ready_slot added_table-IsSound (get_exe-lt 7 0x400) refl
      refl refl

-- Code that makes syscall 39 as often as the world says, and then misses a call.
abbrev pub machine : Machine ℕ
machine = record {
  fsbase = λ w. 0;
  virt_ptr = λ code args r w.
      if w == 0
      then record {
        regs = record r { ip = 0x500 };
        args = record args { arg0 = call_miss };
        world = 0;
      }
      else record {
        regs = record r { ip = 0x3fe; ax = 39 };
        args = record args { arg0 = normal };
        world = w - 1;
      };
  sys_call_table = λ nr r w. record { ret = 1234; regs = r; world = w };
}

abbrev pub on_call : OnCall ℕ
on_call = record { exes = ready_table.exes; regs = zero_regs; world = 1; ac = false; log = [] }

abbrev pub event : Event
event = record { pid = 7; ip = 0x400; ts = 100; current_time = 200 }
