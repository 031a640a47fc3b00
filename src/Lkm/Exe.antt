-- ===== src/Lkm/Exe.antt =====
-- The table of accelerated syscall sites: exe.h, and get_exe, exe_init, exe_add of exe.c.
-- The array `exes` is a function of the index. A `code_block` is the block that it points to,
-- `none` for NULL; what vmalloc and set_memory_x give is a parameter.
pub mod Used
pub mod Add
use userspace_bypass.Prelude.{
  ℕ, suc, ◌+◌, ◌*◌, ◌%◌, ◌≡◌, Bool, Option, List, ltb, ◌==◌, if◌then◌else◌, not, update, neg32,
}
use userspace_bypass.Lkm.Hash.{zz_hash, max_exe}

-- Status codes are `int`s, kept as 32-bit patterns.
abbrev pub un_used : ℕ
un_used = neg32 2

abbrev pub un_init : ℕ
un_init = neg32 1

abbrev pub normal : ℕ
normal = 0

abbrev pub call_miss : ℕ
call_miss = 1

abbrev pub ij_miss : ℕ
ij_miss = 2

abbrev pub num_pg : ℕ
num_pg = 160

pub record Block : Type 0 where
  pub bytes : List ℕ
  pub executable : Bool

pub record ExeInfo : Type 0 where
  pub status_code : ℕ
  pub pid : ℕ
  pub rip : ℕ
  pub code_block : Option Block
  pub jump_from : ℕ
  pub tgt_addr : ℕ
  pub success_cnt : ℕ
  pub fail_cnt : ℕ

-- The globals `exes` and `added`.
pub record ExeTable : Type 0 where
  pub exes : ℕ → ExeInfo
  pub added : ℕ

-- vmalloc, by the number of calls before and the size, and set_memory_x, by the number of pages.
pub record Allocator : Type 0 where
  pub vmalloc : ℕ → ℕ → Option Block
  pub set_memory_x : Option Block → ℕ → Option Block

-- The position of the slot whose address get_exe returns.
unfoldable pub get_exe : ℕ → ℕ → ℕ
get_exe pid ip = zz_hash pid ip % max_exe

-- The loop of exe_init over the first n slots; the other fields keep what vmalloc left there.
unfoldable pub init_slots : ℕ → (ℕ → ExeInfo) → ℕ → ExeInfo
init_slots n raw i = if ltb i n then record (raw i) { status_code = un_used } else raw i

unfoldable pub exe_init : (ℕ → ExeInfo) → ExeTable
unfolding init_slots
exe_init raw = record { exes = init_slots max_exe raw; added = 0 }

-- The writes of exe_add to the slot that it takes.
unfoldable pub claim : Option Block → ℕ → ℕ → ExeInfo → ExeInfo
claim mem pid rip p = record p { pid = pid; rip = rip; code_block = mem; status_code = un_init }

unfoldable pub exe_add : Allocator → ℕ → ℕ → ExeTable → ExeTable
unfolding claim
exe_add a pid rip t =
    let pos = get_exe pid rip in
    let mem = a.set_memory_x (a.vmalloc t.added (4096 * num_pg)) num_pg in
    if not ((t.exes pos).status_code == un_used)
    then t
    else if ltb 62 t.added
    then t
    else record { exes = update t.exes pos (claim mem pid rip (t.exes pos)); added = suc t.added }
