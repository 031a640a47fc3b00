-- ===== src/Protocol.antt =====
-- The daemon's write_sys (ub/zz_daemon/main.c) against the module's sysfs_store (ub/zz_lkm/sys.c):
-- a code image crosses in packets, and the slot is ready only when all of it has arrived.
pub mod Transfer
pub mod Partial
use mathlib.Core.List.{append_assoc}
use userspace_bypass.Prelude.{
  ℕ, ◌+◌, ◌-◌, ◌≤◌, ◌≡◌, sym, ap, ◌∙◌, arith, Option, none, some, List, [], ◌∷◌, ◌++◌, leb,
  if◌then◌else◌, length, take, drop, length-take, length-drop, length-append, take-append_left,
  drop-append_right, drop-drop, take-append-drop,
}
use userspace_bypass.Lkm.Exe.{Block, ExeTable, normal, un_init, get_exe}
use userspace_bypass.Lkm.Sys.{Write, sysfs_store}
use userspace_bypass.Lkm.Sys.Store.{patch, with_code, sysfs_store_hit}
use userspace_bypass.Daemon.WriteSys.{to_copy_len, packet, max_pay}

-- The writes in order; a fault ends them.
unfoldable pub store_all : ExeTable → List Write → Option ExeTable
store_all t [] = some t
store_all t (w ∷ ws) = elim (sysfs_store t w) [ none ↦ none | some u ↦ store_all u ws ]

pub chunk_length :
    (n off rest : ℕ) (i_buf : List ℕ)
    → off + rest ≡ length i_buf
    → n ≤ rest
    → length (take n (drop off i_buf)) ≡ n
chunk_length n off rest i_buf e h =
    omega (arith, length-take n (drop off i_buf), length-drop off i_buf)

pub to_copy_len-le : (rest : ℕ) → to_copy_len rest ≤ rest
unfolding to_copy_len
to_copy_len-le rest = ground arith

-- The bytes once all of `i_buf` from `off` on has been written over them.
abbrev pub finish : List ℕ → ℕ → List ℕ → List ℕ
finish bytes off i_buf = take off bytes ++ drop off i_buf ++ drop (length i_buf) bytes

pub finish-patch :
    (n off : ℕ) (i_buf bytes : List ℕ)
    → off + n ≤ length i_buf
    → length i_buf ≤ length bytes
    → finish (patch bytes off (take n (drop off i_buf))) (off + n) i_buf ≡ finish bytes off i_buf
finish-patch n off i_buf bytes h k =
    rw (front, back)
      (rw (append_assoc (take off bytes) (take n (drop off i_buf)) (drop (off + n) i_buf), middle))
  where
    size : length (take n (drop off i_buf)) ≡ n
    size = chunk_length n off (length i_buf - off) i_buf (omega arith) (omega arith)

    front_size : length (take off bytes ++ take n (drop off i_buf)) ≡ off + n
    front_size = omega (
      arith,
      size,
      length-append (take off bytes) (take n (drop off i_buf)),
      length-take off bytes,
    )

    front :
        take (off + n) (patch bytes off (take n (drop off i_buf)))
        ≡ take off bytes ++ take n (drop off i_buf)
    front = take-append_left (off + n) _ _ (sym front_size)

    back :
        drop (length i_buf) (patch bytes off (take n (drop off i_buf))) ≡ drop (length i_buf) bytes
    back =
        drop-append_right (length i_buf) (take off bytes ++ take n (drop off i_buf)) _
          (omega (arith, front_size))
        ∙ drop-drop _ (off + length (take n (drop off i_buf))) bytes
        ∙ ap (λ (m : ℕ). drop m bytes) (omega (arith, size, front_size))

    middle : take n (drop off i_buf) ++ drop (off + n) i_buf ≡ drop off i_buf
    middle = rw (← drop-drop n off i_buf) (take-append-drop n (drop off i_buf))

-- One packet, taken by the slot whose key it names.
pub store-packet :
    (t : ExeTable) (pid rip : ℕ) (b : Block) (i_buf : List ℕ) (off rest : ℕ)
    → (t.exes (get_exe pid rip)).pid ≡ pid
    → (t.exes (get_exe pid rip)).rip ≡ rip
    → (t.exes (get_exe pid rip)).code_block ≡ some b
    → off + rest ≡ length i_buf
    → length i_buf ≤ length b.bytes
    → sysfs_store t (packet pid rip i_buf off rest)
      ≡ some (
          with_code t
            (get_exe pid rip)
            b
            (patch b.bytes off (take (to_copy_len rest) (drop off i_buf)))
            (if leb rest max_pay then normal else un_init))
unfolding packet
store-packet t pid rip b i_buf off rest p r c fits room =
    sysfs_store_hit t (packet pid rip i_buf off rest) b p r c
      (omega (arith, chunk_length (to_copy_len rest) off rest i_buf, to_copy_len-le rest))
      (omega (arith, chunk_length (to_copy_len rest) off rest i_buf, to_copy_len-le rest))

pub length-patch :
    (bytes new : List ℕ) (off : ℕ)
    → off + length new ≤ length bytes
    → length (patch bytes off new) ≡ length bytes
length-patch bytes new off h = omega (
  arith,
  length-append (take off bytes ++ new) (drop (off + length new) bytes),
  length-append (take off bytes) new,
  length-take off bytes,
  length-drop (off + length new) bytes,
)
