-- ===== src/Lkm/OnCall.antt =====
-- exe_on_call of ub/zz_lkm/exe.c: after a syscall, run the translated code of the site that it came
-- from, then the syscall at which that code stops, and so on (chaining).
-- The machine is a parameter over a world: the translated code, the syscalls and the FS base. They
-- act on the registers and the world, not on the module's table.
pub mod Chain
pub mod Frame
pub mod Round
use userspace_bypass.Prelude.{
  ℕ, zero, suc, ◌+◌, ◌%◌, ◌≡◌, Bool, true, false, ◌&&◌, Option, none, some, List, [], ◌∷◌, ltb, leb,
  ◌==◌, if◌then◌else◌, update, u64, neg64,
}
use userspace_bypass.Regs.{Regs}
use userspace_bypass.Lkm.Exe.{Block, ExeInfo, normal, call_miss, ij_miss, get_exe}

-- `args[2]`.
pub record Args : Type 0 where
  pub arg0 : ℕ
  pub arg1 : ℕ

-- What the code at virt_ptr leaves behind, and what a syscall does.
pub record Jitted (W : Type 0) : Type 0 where
  pub regs : Regs
  pub args : Args
  pub world : W

pub record Called (W : Type 0) : Type 0 where
  pub ret : ℕ
  pub regs : Regs
  pub world : W

pub record Machine (W : Type 0) : Type 0 where
  pub fsbase : W → ℕ
  pub virt_ptr : Option Block → Args → Regs → W → Jitted W
  pub sys_call_table : ℕ → Regs → W → Called W

-- A line that exe_on_call prints.
pub record Report : Type 0 where
  pub pid : ℕ
  pub rip : ℕ
  pub success_cnt : ℕ
  pub fail_cnt : ℕ

-- The state of the loop. `ac` is EFLAGS.AC of the kernel: stac() sets it and clac() clears it.
pub record OnCall (W : Type 0) : Type 0 where
  pub exes : ℕ → ExeInfo
  pub regs : Regs
  pub world : W
  pub ac : Bool
  pub log : List Report

-- The registers as the syscall entry would have left them.
unfoldable pub enter_syscall : Regs → Regs
enter_syscall r = record r {
  ip = u64 (r.ip + 2);
  cx = u64 (r.ip + 2);
  r11 = r.flags;
  orig_ax = r.ax;
  ax = neg64 38;
}

-- `orig_ax` is unsigned, so the test `orig_ax >= 0` of the source always passes.
unfoldable pub is_legal : ℕ → Bool
is_legal nr = leb nr 436

unfoldable pub count_success : ExeInfo → ExeInfo
count_success e = record e { success_cnt = u64 (e.success_cnt + 1) }

unfoldable pub count_fail : ExeInfo → ExeInfo
count_fail e = record e { fail_cnt = u64 (e.fail_cnt + 1) }

module _ {W : Type 0} where
  -- The branch on the first result of the code at slot `pos`.
  unfoldable pub handle_syscall : Machine W → ℕ → OnCall W → OnCall W
  unfolding enter_syscall is_legal count_success
  handle_syscall m pos s =
      let r = enter_syscall s.regs in
      let c = m.sys_call_table r.orig_ax r s.world in
      if is_legal r.orig_ax
      then record s {
        regs = record (c.regs) { ax = c.ret };
        world = c.world;
        exes = update s.exes pos (count_success (s.exes pos));
      }
      else record s { regs = r }

  unfoldable pub handle_miss : ℕ → ℕ → OnCall W → OnCall W
  unfolding count_fail
  handle_miss arg0 pos s =
      let e = s.exes pos in
      if ltb e.success_cnt e.fail_cnt
      then if arg0 == call_miss
        then record s {
          exes =
              update s.exes pos
                (count_fail (record e { tgt_addr = s.regs.ip; status_code = call_miss }));
        }
        else record s {
          exes = update s.exes pos (
              count_fail
                (record e { tgt_addr = s.regs.ip; jump_from = arg0; status_code = ij_miss }));
        }
      else record s { exes = update s.exes pos (count_fail e) }

  unfoldable pub report : ℕ → OnCall W → OnCall W
  report pos s =
      let e = s.exes pos in
      if u64 (e.success_cnt + e.fail_cnt) % 500000 == 1
      then record s {
        log =
            record { pid = e.pid; rip = e.rip; success_cnt = e.success_cnt; fail_cnt = e.fail_cnt }
            ∷ s.log;
      }
      else s

  -- The branches on `args[0]`.
  unfoldable pub dispatch : Machine W → ℕ → ℕ → OnCall W → OnCall W
  dispatch m arg0 pos s = if arg0 == normal then handle_syscall m pos s else handle_miss arg0 pos s

  -- stac() and the call of the code at slot `pos`.
  unfoldable pub run_code : Machine W → ℕ → OnCall W → Jitted W
  run_code m pos s =
      m.virt_ptr (s.exes pos).code_block (record { arg0 = m.fsbase s.world; arg1 = 0 }) s.regs
        s.world

  unfoldable pub after_code : OnCall W → Jitted W → OnCall W
  after_code s j = record s { regs = j.regs; world = j.world; ac = true }

  -- The body of the loop behind its `break`.
  unfoldable pub round : Machine W → ℕ → OnCall W → OnCall W
  round m pid s =
      let pos = get_exe pid s.regs.ip in
      let j = run_code m pos s in report pos (dispatch m j.args.arg0 pos (after_code s j))

  -- The negation of the loop's test for `break`.
  unfoldable pub can_run : ℕ → OnCall W → Bool
  can_run pid s =
      let e = s.exes (get_exe pid s.regs.ip) in
      e.status_code == normal && (e.rip == s.regs.ip && e.pid == pid)

  unfoldable pub clac : OnCall W → OnCall W
  clac s = record s { ac = false }

  -- `while(1)` on fuel; `none` means that the fuel ran out.
  unfoldable pub exe_on_call : ℕ → Machine W → ℕ → OnCall W → Option (OnCall W)
  unfolding can_run clac
  exe_on_call zero m pid s = none
  exe_on_call (suc fuel) m pid s =
      let rest = exe_on_call fuel m pid (round m pid s) in
      if can_run pid s then rest else some (clac s)
