-- ===== src/Lkm/Hash.antt =====
-- zz_hash of ub/zz_lkm/stat.h, and the two tables' positions that are computed from it.
use Prim.Native.Nat.{bit_xor}
use userspace_bypass.Prelude.{ℕ, ◌+◌, u32}

unfoldable pub zz_hash : ℕ → ℕ → ℕ
zz_hash pid ip = u32 (bit_xor (u32 ip) 1674567091 + bit_xor pid 569809)

-- `max_exe` of exe.h and `max_caller` of stat.h.
abbrev pub max_exe : ℕ
max_exe = 511

abbrev pub max_caller : ℕ
max_caller = 16
