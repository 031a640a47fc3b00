-- ===== src/Tests/Daemon.antt =====
-- The daemon, and its transfers to the module.
use userspace_bypass.Prelude.{
  ℕ, ◌≡◌, ◌≢◌, refl, arith, true, Option, none, some, List, [], ◌∷◌, ◌++◌, replicate,
}
use userspace_bypass.Lkm.Hash.{zz_hash}
use userspace_bypass.Lkm.Exe.{
  Block, ExeInfo, ExeTable, normal, get_exe, init_slots, exe_init, claim, exe_add, un_init,
}
use userspace_bypass.Lkm.Sys.{Write, sysfs_store}
use userspace_bypass.Lkm.Sys.Store.{with_code}
use userspace_bypass.Daemon.Text.{codes, call_cmd, init_cmd}
use userspace_bypass.Daemon.WriteSys.{packet, write_loop, write_sys}
use userspace_bypass.Daemon.Check.{
  Daemon, Files, start, find_ip, in_targets, in_hist, in_first, in_records, warn_once, run_new,
  push_writes, send_writes, send, command, boost, check_one, check_all, check, main_loop,
}
use userspace_bypass.Daemon.Check.History.{HasNoRepeats, main_loop-HasNoRepeats}
use userspace_bypass.Daemon.Check.WhiteList.{AllListed, main_loop-AllListed}
use userspace_bypass.Daemon.Check.Total.{main_loop_total}
use userspace_bypass.Protocol.{store_all}
use userspace_bypass.Protocol.Transfer.{transfer}
use userspace_bypass.Protocol.Partial.{transfer_cut_off}
use userspace_bypass.Tests.Data.{block, site, added_table, ready_slot}

call_cmd_runs :
    call_cmd 0x55555558f8e0 0x7ffff7de6487
    ≡ codes "echo 0x55555558f8e0 >> ./0x7ffff7de6487/asm/callee_table.txt"
unfolding call_cmd
call_cmd_runs = refl

abbrev image : List ℕ
image = 144 ∷ 195 ∷ []

transfer_example :
    (ws : List Write) × (write_sys (some image) 7 0x400 ≡ some ws)
    × (store_all added_table ws
        ≡ some (with_code added_table site block (144 ∷ 195 ∷ replicate 6 0) normal))
unfolding exe_add exe_init init_slots claim get_exe zz_hash
transfer_example =
    transfer added_table 7 0x400 block image refl refl refl (omega arith) (omega arith)
      (omega arith)

-- A jit.bin of two packets, of which the second never comes.
abbrev long_image : List ℕ
long_image = replicate 4001 144

abbrev long_block : Block
long_block = record { bytes = replicate 4096 0; executable = true }

abbrev long_table : ExeTable
long_table = with_code added_table site long_block long_block.bytes un_init

abbrev half_table : ExeTable
half_table = with_code long_table site long_block (replicate 4000 144 ++ replicate 96 0) un_init

transfer_cut_off_example : (half_table.exes site).status_code ≢ normal
unfolding exe_add exe_init init_slots claim get_exe zz_hash write_sys write_loop packet store_all
    sysfs_store
transfer_cut_off_example =
    transfer_cut_off long_image 7 0x400 (packet 7 0x400 long_image 0 4001 ∷ []) []
      (packet 7 0x400 long_image 4000 1) long_table half_table site refl refl (λ e. ground arith)

-- One site of the white-list that asks for code, seen twice, and one that is not listed.
abbrev asking : ExeInfo
asking = record ready_slot { rip = 0x7ffff7de6487; status_code = un_init }

abbrev passes : List (List ExeInfo)
passes = (asking ∷ ready_slot ∷ []) ∷ (asking ∷ []) ∷ []

abbrev files : Files
files done rip = some image

abbrev or_start : Option Daemon → Daemon
or_start none = start
or_start (some d) = d

abbrev final : Daemon
final = or_start (main_loop files passes)

passes_end : main_loop files passes ≡ some final
unfolding main_loop check check_one warn_once run_new send send_writes boost in_targets in_records
    in_hist command push_writes write_sys exe_add exe_init init_slots claim get_exe zz_hash start
    check_all find_ip in_first init_cmd
passes_end = refl

main_loop-HasNoRepeats_example : HasNoRepeats final
main_loop-HasNoRepeats_example = main_loop-HasNoRepeats files passes final passes_end

main_loop-AllListed_example : AllListed final.done
main_loop-AllListed_example = main_loop-AllListed files passes final passes_end

main_loop_total_example : (d : Daemon) × (main_loop files passes ≡ some d)
main_loop_total_example = main_loop_total files passes (λ done rip. (image, refl)) (omega arith)
