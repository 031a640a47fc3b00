-- ===== src/Daemon/Check/Total.antt =====
-- The daemon does not fault while every jit.bin is there and its arrays have room.
use userspace_bypass.Prelude.{
  ℕ, suc, ◌+◌, ◌≤◌, ◌≡◌, refl, arith, Option, none, some, List, [], ◌∷◌, length, take, length-take,
}
use userspace_bypass.Lkm.Exe.{ExeInfo}
use userspace_bypass.Lkm.Sys.{Write}
use userspace_bypass.Daemon.WriteSys.{write_loop_total, write_sys, sizeof_i_buf}
use userspace_bypass.Daemon.Check.{
  Effect, Daemon, start, max_records, max_cmd_hist, warn_once, run_new, push_writes, Files,
  send_writes, send, command, boost, check_one, check_all, check, main_from, main_loop,
}

-- The entries that the passes hold.
abbrev pub entries : List (List ExeInfo) → ℕ
entries [] = 0
entries (es ∷ passes) = length es + entries passes

-- n more entries fit both arrays.
pub record HasRoom (n : ℕ) (d : Daemon) : Type 0 where
  pub for_records : d.cnts + n ≤ max_records
  pub for_cmds : length d.cmd_hist + n ≤ max_cmd_hist

abbrev pub AllThere : Files → Type 0
AllThere files = (done : List Effect) (rip : ℕ) → (bytes : List ℕ) × (files done rip ≡ some bytes)

-- The step has not faulted, and has left room for n more.
abbrev GoesOn : ℕ → Option Daemon → Type 0
GoesOn n none = ⊥
GoesOn n (some d) = HasRoom n d

GoesOn-some : (n : ℕ) (r : Option Daemon) → GoesOn n r → (d : Daemon) × (r ≡ some d) × HasRoom n d
GoesOn-some n none h = absurd h
GoesOn-some n (some d) h = (d, refl, h)

warn_once-GoesOn : (n ip : ℕ) (d : Daemon) → HasRoom (suc n) d → GoesOn n (warn_once ip d)
unfolding warn_once
warn_once-GoesOn n ip d h = ground arith

run_new-GoesOn :
    (n : ℕ) (cmd : List ℕ) (e : ExeInfo) (d : Daemon)
    → HasRoom (suc n) d
    → GoesOn n (run_new cmd e d)
unfolding run_new
run_new-GoesOn n cmd e d h = ground arith

push_writes-HasRoom :
    (n : ℕ) (ws : List Write) (d : Daemon) → HasRoom n d → HasRoom n (push_writes ws d)
unfolding push_writes
push_writes-HasRoom n [] d h = h
push_writes-HasRoom n (w ∷ ws) d h =
    push_writes-HasRoom n ws _ (record { for_records = h.for_records; for_cmds = h.for_cmds })

write_sys_total :
    (file : List ℕ) (pid rip : ℕ) → (ws : List Write) × (write_sys (some file) pid rip ≡ some ws)
unfolding write_sys
write_sys_total file pid rip =
    let i_buf = take sizeof_i_buf file in
    write_loop_total (length i_buf) pid rip i_buf 0 (length i_buf) (omega arith)

module _ (files : Files) (there : AllThere files) where
  send-GoesOn : (n : ℕ) (e : ExeInfo) (r : Option Daemon) → GoesOn n r → GoesOn n (send files e r)
  unfolding send send_writes
  send-GoesOn n e none h = h
  send-GoesOn n e (some d) h =
      let (file, f) = there d.done e.rip in
      let (ws, w) = write_sys_total file e.pid e.rip in rw (f, w) (push_writes-HasRoom n ws d h)

  boost-GoesOn :
      (n : ℕ) (cmd : Option (List ℕ)) (e : ExeInfo) (d : Daemon)
      → HasRoom (suc n) d
      → GoesOn n (boost files cmd e d)
  unfolding boost
  boost-GoesOn n none e d h = ground arith
  boost-GoesOn n (some cmd) e d h = send-GoesOn n e _ (run_new-GoesOn n cmd e d h)

  check_one-GoesOn :
      (n : ℕ) (e : ExeInfo) (d : Daemon) → HasRoom (suc n) d → GoesOn n (check_one files e d)
  unfolding check_one
  check_one-GoesOn n e d h =
      ground (arith, warn_once-GoesOn n e.rip d, boost-GoesOn n (command e) e d)

  check_all-GoesOn :
      (n : ℕ) (es : List ExeInfo) (d : Daemon)
      → HasRoom (length es + n) d
      → GoesOn n (check_all files es d)
  unfolding check_all
  check_all-GoesOn n [] d h = record {
    for_records = omega (arith, h.for_records);
    for_cmds = omega (arith, h.for_cmds);
  }
  check_all-GoesOn n (e ∷ es) d h =
      let (d', q, room) = GoesOn-some _ _ (
        check_one-GoesOn (length es + n) e d (record {
          for_records = omega (arith, h.for_records);
          for_cmds = omega (arith, h.for_cmds);
        })) in
      rw (q, check_all) (check_all-GoesOn n es d' room)

  main_from-GoesOn :
      (passes : List (List ExeInfo)) (d : Daemon)
      → HasRoom (entries passes) d
      → GoesOn 0 (main_from files passes d)
  unfolding main_from check
  main_from-GoesOn [] d h = h
  main_from-GoesOn (es ∷ passes) d h =
      let (d', q, room) = GoesOn-some _ _ (
        check_all-GoesOn (entries passes) (take 73 es) d (record {
          for_records = omega (arith, h.for_records, length-take 73 es);
          for_cmds = omega (arith, h.for_cmds, length-take 73 es);
        })) in
      rw (q, main_from, check) (main_from-GoesOn passes d' room)

-- While every site has its jit.bin and the passes hold at most 1000 entries, the daemon goes through
-- them without a fault.
pub main_loop_total :
    (files : Files) (passes : List (List ExeInfo))
    → AllThere files
    → entries passes ≤ 1000
    → (d : Daemon) × (main_loop files passes ≡ some d)
unfolding main_loop start
main_loop_total files passes there few =
    let (d, e, _) = GoesOn-some _ _ (
      main_from-GoesOn files there passes start
        (record { for_records = omega arith; for_cmds = omega arith })) in
    (d, e)
