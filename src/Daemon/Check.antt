-- ===== src/Daemon/Check.antt =====
-- check, in_targets, in_records, cmd_history and compile of the daemon, ub/zz_daemon/main.c.
-- A pass over the table gives the daemon's new state and the list of what it did, the latest first.
pub mod History
pub mod WhiteList
pub mod Total
use userspace_bypass.Prelude.{
  ℕ, zero, suc, ◌+◌, ◌/◌, ◌≡◌, Bool, true, false, ◌||◌, Option, none, some, List, [], ◌∷◌, ◌++◌,
  ltb, ◌==◌, if◌then◌else◌, update, take, length, not,
}
use userspace_bypass.Lkm.Exe.{ExeInfo, normal, un_init, call_miss, ij_miss}
use userspace_bypass.Lkm.Sys.{Write, sizeof_exe_info}
use userspace_bypass.Daemon.Text.{init_cmd, call_cmd, ij_cmd}
use userspace_bypass.Daemon.WriteSys.{write_sys}

-- `warn` is the message that a site is not in the white-list. `run` is system(cmd), `compile` the run of
-- zz_disassem for a process and a site, `write` one write to the sysfs file.
pub data Effect : Type 0 where
  warn : ℕ → Effect
  run : List ℕ → Effect
  compile : ℕ → ℕ → Effect
  write : Write → Effect

-- The globals `records`, `cnts` and `cmd_hist`, the latest command first (`cmd_cnt` is its length).
pub record Daemon : Type 0 where
  pub records : ℕ → ℕ
  pub cnts : ℕ
  pub cmd_hist : List (List ℕ)
  pub done : List Effect

unfoldable pub start : Daemon
start = record { records = λ i. 0; cnts = 0; cmd_hist = []; done = [] }

abbrev pub targets : List ℕ
targets =
    0x7ffff7fa1abb ∷ 0x7ffff7de6487 ∷ 0x7ffff7df274e ∷ 0x7ffff7de4fae ∷ 0x7ffff7fa1437
    ∷ 0x7ffff7fa76ca ∷ 0x7ffff7ed116a ∷ 0x7ffff7e5232f ∷ []

abbrev pub max_records : ℕ
max_records = 1024

abbrev pub max_cmd_hist : ℕ
max_cmd_hist = 1000

unfoldable pub find_ip : ℕ → List ℕ → Bool
find_ip ip [] = false
find_ip ip (x ∷ xs) = ip == x || find_ip ip xs

unfoldable pub in_targets : ℕ → Bool
unfolding find_ip
in_targets ip = find_ip ip targets

-- The loop of in_records over the first n entries.
unfoldable pub in_first : ℕ → ℕ → (ℕ → ℕ) → Bool
in_first zero ip records = false
in_first (suc n) ip records = ip == records n || in_first n ip records

unfoldable pub in_records : ℕ → Daemon → Bool
unfolding in_first
in_records ip d = in_first max_records ip d.records

unfoldable pub same_text : List ℕ → List ℕ → Bool
same_text [] [] = true
same_text [] (y ∷ ys) = false
same_text (x ∷ xs) [] = false
same_text (x ∷ xs) (y ∷ ys) = if x == y then same_text xs ys else false

unfoldable pub in_hist : List ℕ → List (List ℕ) → Bool
unfolding same_text
in_hist cmd [] = false
in_hist cmd (h ∷ hs) = same_text cmd h || in_hist cmd hs

unfoldable pub warn_once : ℕ → Daemon → Option Daemon
warn_once ip d =
    if in_records ip d
    then some d
    else if ltb d.cnts max_records
    then some (record d {
      records = update d.records d.cnts ip;
      cnts = suc d.cnts;
      done = warn ip ∷ d.done;
    })
    else none

-- `if(cmd[0] && !cmd_history(cmd)) { system(cmd); compile(...); }`; the command is never empty here.
unfoldable pub run_new : List ℕ → ExeInfo → Daemon → Option Daemon
run_new cmd e d =
    if in_hist cmd d.cmd_hist
    then some d
    else if ltb (length d.cmd_hist) max_cmd_hist
    then some
        (record d { cmd_hist = cmd ∷ d.cmd_hist; done = compile e.pid e.rip ∷ run cmd ∷ d.done })
    else none

unfoldable pub push_writes : List Write → Daemon → Daemon
push_writes [] d = d
push_writes (w ∷ ws) d = push_writes ws (record d { done = write w ∷ d.done })

-- The contents of the jit.bin of a site, after the effects so far.
abbrev pub Files : Type 0
Files = List Effect → ℕ → Option (List ℕ)

unfoldable pub send_writes : Option (List Write) → Daemon → Option Daemon
send_writes none d = none
send_writes (some ws) d = some (push_writes ws d)

unfoldable pub send : Files → ExeInfo → Option Daemon → Option Daemon
send files e none = none
send files e (some d) = send_writes (write_sys (files d.done e.rip) e.pid e.rip) d

-- The command for a status that asks for one.
unfoldable pub command : ExeInfo → Option (List ℕ)
command e =
    if e.status_code == un_init
    then some (init_cmd e.rip)
    else if e.status_code == call_miss
    then some (call_cmd e.tgt_addr e.rip)
    else if e.status_code == ij_miss
    then some (ij_cmd e.jump_from e.tgt_addr e.rip)
    else none

unfoldable pub boost : Files → Option (List ℕ) → ExeInfo → Daemon → Option Daemon
boost files none e d = some d
boost files (some cmd) e d = send files e (run_new cmd e d)

-- The body of the loop of `check`.
unfoldable pub check_one : Files → ExeInfo → Daemon → Option Daemon
check_one files e d =
    if not (in_targets e.rip)
    then warn_once e.rip d
    else if e.status_code == normal
    then some d
    else boost files (command e) e d

unfoldable pub check_all : Files → List ExeInfo → Daemon → Option Daemon
check_all files [] d = some d
check_all files (e ∷ es) d = elim (check_one files e d) [
  | none ↦ none
  | some d' ↦ check_all files es d'
]

-- read_sys reads at most 4096 bytes, and `check` takes the whole entries among them.
unfoldable pub check : Files → List ExeInfo → Daemon → Option Daemon
check files entries d = check_all files (take (4096 / sizeof_exe_info) entries) d

-- The loop of `main`, one pass for each read of the file that is listed.
unfoldable pub main_from : Files → List (List ExeInfo) → Daemon → Option Daemon
main_from files [] d = some d
main_from files (es ∷ passes) d = elim (check files es d) [
  | none ↦ none
  | some d' ↦ main_from files passes d'
]

unfoldable pub main_loop : Files → List (List ExeInfo) → Option Daemon
unfolding main_from
main_loop files passes = main_from files passes start
