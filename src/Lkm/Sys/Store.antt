-- ===== src/Lkm/Sys/Store.antt =====
-- What a write of the sysfs file does to the table.
use mathlib.Core.Path.{subst}
use mathlib.Core.Option.{some-injective}
use userspace_bypass.Prelude.{
  List, take-all, update, drop, ◌≤◌, ◌++◌, ℕ, ◌+◌, ◌-◌, ◌<◌, ◌≡◌, refl, arith, true, take, length,
  none, some, Option,
}
use userspace_bypass.Lkm.Hash.{max_exe}
use userspace_bypass.Lkm.Exe.{Block, ExeInfo, ExeTable, get_exe}
use userspace_bypass.Lkm.Exe.Used.{is_used, get_exe-lt}
use userspace_bypass.Lkm.Exe.Add.{IsSound, write_slot-IsSound}
use userspace_bypass.Lkm.Sys.{Write, sizeof_recv_pkt, copy_to, set_slot, slot_matches, sysfs_store}

-- The slot that a write is for, and its payload.
abbrev pub target : ExeTable → Write → ExeInfo
target t w = t.exes (get_exe w.head.pid w.head.rip)

abbrev pub payload : Write → List ℕ
payload w = take (w.count - sizeof_recv_pkt) w.body

set_slot-IsSound :
    (t : ExeTable) (pos status : ℕ) (m : Option (Option Block)) (u : ExeTable)
    → IsSound t
    → pos < max_exe
    → is_used (t.exes pos) ≡ true
    → set_slot t pos status m ≡ some u
    → IsSound u
unfolding set_slot
set_slot-IsSound t pos status none u s lt h e = cc
set_slot-IsSound t pos status (some b) u s lt h e = subst IsSound (some-injective _ _ e) (
    write_slot-IsSound t pos (record (t.exes pos) { code_block = b; status_code = status }) s lt h
      refl refl)

pub sysfs_store-IsSound :
    (t u : ExeTable) (w : Write)
    → IsSound t
    → (slot_matches (target t w) w.head ≡ true → is_used (target t w) ≡ true)
    → sysfs_store t w ≡ some u
    → IsSound u
unfolding sysfs_store
sysfs_store-IsSound t u w s h e = grind (
  arith,
  set_slot-IsSound t (get_exe w.head.pid w.head.rip) w.head.status_code
      (copy_to (target t w).code_block w.head.offset (payload w)) u s
      (get_exe-lt w.head.pid w.head.rip),
)

-- The bytes with a part overwritten.
abbrev pub patch : List ℕ → ℕ → List ℕ → List ℕ
patch bytes off new = take off bytes ++ new ++ drop (off + length new) bytes

-- The table with other bytes and another status in one slot.
abbrev pub with_code : ExeTable → ℕ → Block → List ℕ → ℕ → ExeTable
with_code t pos b bytes status = record t {
  exes = update t.exes pos (record (t.exes pos) {
    code_block = some (record b { bytes = bytes });
    status_code = status;
  });
}

store_hit :
    (t : ExeTable) (w : Write) (b : Block) (body : List ℕ)
    → (target t w).pid ≡ w.head.pid
    → (target t w).rip ≡ w.head.rip
    → (target t w).code_block ≡ some b
    → sizeof_recv_pkt ≤ w.count
    → payload w ≡ body
    → w.head.offset + length body ≤ length b.bytes
    → sysfs_store t w
      ≡ some (
          with_code t
            (get_exe w.head.pid w.head.rip)
            b
            (patch b.bytes w.head.offset body)
            w.head.status_code)
unfolding sysfs_store copy_to set_slot slot_matches
store_hit t w b body p r c n q fits = ground arith

-- A well-formed write for a key in the table overwrites that part of its code block, sets its status,
-- and leaves all else.
pub sysfs_store_hit :
    (t : ExeTable) (w : Write) (b : Block)
    → (target t w).pid ≡ w.head.pid
    → (target t w).rip ≡ w.head.rip
    → (target t w).code_block ≡ some b
    → w.count ≡ sizeof_recv_pkt + length w.body
    → w.head.offset + length w.body ≤ length b.bytes
    → sysfs_store t w
      ≡ some (
          with_code t
            (get_exe w.head.pid w.head.rip)
            b
            (patch b.bytes w.head.offset w.body)
            w.head.status_code)
sysfs_store_hit t w b p r c n fits =
    store_hit t w b w.body p r c (omega arith)
      (take-all (w.count - sizeof_recv_pkt) w.body (omega arith)) fits
