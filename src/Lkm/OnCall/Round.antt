-- ===== src/Lkm/OnCall/Round.antt =====
-- One round of exe_on_call, by what the translated code returned.
use userspace_bypass.Prelude.{◌+◌, u64, ℕ, ◌≡◌, arith, ◌==◌, if◌then◌else◌, ltb, update}
use userspace_bypass.Regs.{Regs}
use userspace_bypass.Lkm.Exe.{ExeInfo, normal, call_miss, ij_miss, get_exe}
use userspace_bypass.Lkm.OnCall.{
  Machine, OnCall, is_legal, count_success, count_fail, handle_syscall, handle_miss, dispatch,
  run_code, after_code, round,
}
use userspace_bypass.Lkm.OnCall.Frame.{report-exes}

-- The slot after a round whose code stopped with `arg0` at the registers r: a success more for a syscall of
-- the table, nothing for a number beyond it, a failure more for a miss; and a miss goes to the daemon, as a
-- call or as an indirect jump from arg0, where there were more failures than successes.
abbrev pub next_slot : ℕ → Regs → ExeInfo → ExeInfo
next_slot arg0 r e =
    if arg0 == normal
    then if ltb r.ax 437 then record e { success_cnt = u64 (e.success_cnt + 1) } else e
    else if ltb e.success_cnt e.fail_cnt
    then record e {
      fail_cnt = u64 (e.fail_cnt + 1);
      tgt_addr = r.ip;
      status_code = if arg0 == call_miss then call_miss else ij_miss;
      jump_from = if arg0 == call_miss then e.jump_from else arg0;
    }
    else record e { fail_cnt = u64 (e.fail_cnt + 1) }

module _ {W : Type 0} (m : Machine W) where
  dispatch-exes :
      (arg0 pos i : ℕ) (s : OnCall W)
      → (dispatch m arg0 pos s).exes i ≡ update s.exes pos (next_slot arg0 s.regs (s.exes pos)) i
  unfolding dispatch handle_syscall handle_miss is_legal count_success count_fail
  dispatch-exes arg0 pos i s = ground arith

  -- A round of exe_on_call changes no slot but that of the site, and there adds 1 to the successes for
  -- a syscall up to 436, changes nothing for another number, and for a miss adds 1 to the failures
  -- and, where failures outnumbered successes, records the target and the status that hand the miss to
  -- the daemon.
  pub round-exes :
      (pid i : ℕ) (s : OnCall W)
      → let pos = get_exe pid s.regs.ip in
        let j = run_code m pos s in
        (round m pid s).exes i ≡ update s.exes pos (next_slot j.args.arg0 j.regs (s.exes pos)) i
  unfolding round after_code
  round-exes pid i s =
      let pos = get_exe pid s.regs.ip in
      let j = run_code m pos s in
      rw (report-exes m pid pos (dispatch m j.args.arg0 pos (after_code s j)))
        (dispatch-exes j.args.arg0 pos i (after_code s j))
