-- ===== src/Lkm/Sys.antt =====
-- The sysfs file of the module, ub/zz_lkm/sys.c: what the daemon reads and writes.
-- A struct crosses the file as itself, since both sides declare the same layout (zz_daemon/exe.h):
-- the buffer of a read is the list of its entries, and its length in bytes is 56 for each. A fault,
-- such as a copy past the end of a code block, is `none`. printk is left out.
pub mod Show
pub mod Store
use userspace_bypass.Prelude.{
  ℕ, zero, suc, ◌+◌, ◌-◌, ◌*◌, Bool, true, false, ◌&&◌, ◌||◌, Option, none, some, List, [], ◌∷◌,
  ◌++◌, ltb, leb, ◌==◌, if◌then◌else◌, not, update, u32, length, take, drop,
}
use userspace_bypass.Lkm.Hash.{max_exe}
use userspace_bypass.Lkm.Exe.{Block, ExeInfo, ExeTable, get_exe}
use userspace_bypass.Lkm.Exe.Used.{is_used}

pub record RecvPkt : Type 0 where
  pub status_code : ℕ
  pub pid : ℕ
  pub rip : ℕ
  pub offset : ℕ

-- sizeof(struct exe_info) and sizeof(struct recv_pkt).
abbrev pub sizeof_exe_info : ℕ
sizeof_exe_info = 56

abbrev pub sizeof_recv_pkt : ℕ
sizeof_recv_pkt = 24

-- A write to the file: the header at the front of the buffer, the bytes behind it, and the count.
pub record Write : Type 0 where
  pub head : RecvPkt
  pub body : List ℕ
  pub count : ℕ

-- The loop of sysfs_show, with n rounds left at slot i.
unfoldable pub show_from : ℕ → ℕ → (ℕ → ExeInfo) → List ExeInfo
show_from zero i f = []
show_from (suc n) i f =
    let rest = show_from n (suc i) f in if is_used (f i) then f i ∷ rest else rest

-- The entries copied to the buffer, the returned length, and `stat_flag`, which is an `int`.
unfoldable pub sysfs_show : ExeTable → ℕ → List ExeInfo × ℕ × ℕ
sysfs_show t stat_flag =
    let entries = show_from max_exe 0 t.exes in
    (entries, sizeof_exe_info * length entries, u32 (stat_flag + 1))

-- memcpy of the payload to a code block, at the offset. A copy of nothing touches no memory, whatever the
-- address.
unfoldable pub copy_to : Option Block → ℕ → List ℕ → Option (Option Block)
copy_to none off payload = if length payload == 0 then some none else none
copy_to (some b) off payload =
    if length payload == 0 || leb (off + length payload) (length b.bytes)
    then some (
        some
          (record b { bytes = take off b.bytes ++ payload ++ drop (off + length payload) b.bytes }))
    else none

-- The end of sysfs_store, once the copy has been made.
unfoldable pub set_slot : ExeTable → ℕ → ℕ → Option (Option Block) → Option ExeTable
set_slot t pos status none = none
set_slot t pos status (some b) = some (record t {
  exes = update t.exes pos (record (t.exes pos) { code_block = b; status_code = status });
})

unfoldable pub slot_matches : ExeInfo → RecvPkt → Bool
slot_matches p h = p.rip == h.rip && p.pid == h.pid

-- The new table; sysfs_store returns `count` on both paths. A count below the header's size makes
-- the length of the copy negative.
unfoldable pub sysfs_store : ExeTable → Write → Option ExeTable
unfolding copy_to set_slot slot_matches
sysfs_store t w =
    let pos = get_exe w.head.pid w.head.rip in
    let payload = take (w.count - sizeof_recv_pkt) w.body in
    if slot_matches (t.exes pos) w.head
    then if ltb w.count sizeof_recv_pkt
      then none
      else set_slot t pos w.head.status_code (copy_to (t.exes pos).code_block w.head.offset payload)
    else some t

-- What sys_init learns from filp_open, kobject_create_and_add and sysfs_create_file.
pub record SysEnv : Type 0 where
  pub zz_sys_exists : Bool
  pub created : Option ℕ
  pub create_file_error : Bool

pub record SysState : Type 0 where
  pub kobj_ref : Option ℕ
  pub has_file : Bool

create_attr : SysEnv → Option ℕ → SysState
create_attr env none = record { kobj_ref = none; has_file = false }
create_attr env (some k) = record { kobj_ref = some k; has_file = not env.create_file_error }

unfoldable pub sys_init : SysEnv → SysState → SysState
unfolding create_attr
sys_init env s = if env.zz_sys_exists then s else create_attr env env.created

unfoldable pub sys_exit : SysState → SysState
sys_exit s = elim s.kobj_ref [ none ↦ s | some k ↦ record s { has_file = false } ]
