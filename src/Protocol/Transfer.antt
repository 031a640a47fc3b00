-- ===== src/Protocol/Transfer.antt =====
-- The whole transfer of a code image.
use mathlib.Core.Path.{fun_ext}
use userspace_bypass.Prelude.{
  ℕ, zero, suc, ◌+◌, ◌-◌, ◌≤◌, ◌<◌, ◌≡◌, refl, ap, ◌∙◌, arith, some, List, [], ◌∷◌, ◌++◌, leb, true,
  false, Bool-cases, inl, inr, length, take, drop, length-drop, take-all,
}
use userspace_bypass.Lkm.Exe.{Block, ExeTable, normal, un_init, get_exe}
use userspace_bypass.Lkm.Sys.{Write, sysfs_store}
use userspace_bypass.Lkm.Sys.Store.{patch, with_code}
use userspace_bypass.Daemon.WriteSys.{
  to_copy_len, packet, write_loop, write_loop_total, write_sys, max_pay, sizeof_i_buf,
}
use userspace_bypass.Protocol.{
  store_all, finish, finish-patch, chunk_length, length-patch, store-packet,
}

with_code_twice :
    (t : ExeTable) (pos : ℕ) (b : Block) (old new : List ℕ) (s u : ℕ)
    → with_code (with_code t pos b old s) pos (record b { bytes = old }) new u
      ≡ with_code t pos b new u
with_code_twice t pos b old new s u =
    ap {B = ExeTable} (λ f. record { exes = f; added = t.added }) (fun_ext (λ j. ground arith))

-- The rounds of the loop: with bytes left, the first packet and the rest.
pub write_loop-suc :
    (fuel pid rip : ℕ) (i_buf : List ℕ) (off rest : ℕ) (ws more : List Write)
    → 0 < rest
    → write_loop fuel pid rip i_buf (off + to_copy_len rest) (rest - to_copy_len rest) ≡ some more
    → write_loop (suc fuel) pid rip i_buf off rest ≡ some ws
    → ws ≡ packet pid rip i_buf off rest ∷ more
unfolding write_loop
write_loop-suc fuel pid rip i_buf off rest ws more h e q = ground arith

pub write_loop-zero :
    (fuel pid rip : ℕ) (i_buf : List ℕ) (off : ℕ) → write_loop fuel pid rip i_buf off 0 ≡ some []
unfolding write_loop
write_loop-zero zero pid rip i_buf off = refl
write_loop-zero (suc fuel) pid rip i_buf off = refl

-- The last packet completes the image.
patch_last :
    (off rest : ℕ) (i_buf bytes : List ℕ)
    → off + rest ≡ length i_buf
    → patch bytes off (take rest (drop off i_buf)) ≡ finish bytes off i_buf
patch_last off rest i_buf bytes e =
    rw (take-all rest (drop off i_buf) (omega (arith, length-drop off i_buf))) (
      ap (λ (m : ℕ). take off bytes ++ drop off i_buf ++ drop m bytes)
        (omega (arith, length-drop off i_buf)))

store_cons :
    (t u : ExeTable) (w : Write) (ws : List Write)
    → sysfs_store t w ≡ some u
    → store_all t (w ∷ ws) ≡ store_all u ws
unfolding store_all
store_cons t u w ws e = rw (e, store_all)

last_len : (rest : ℕ) → leb rest max_pay ≡ true → to_copy_len rest ≡ rest
unfolding to_copy_len
last_len rest h = ground arith

full_len : (rest : ℕ) → leb rest max_pay ≡ false → (to_copy_len rest ≡ max_pay) × (max_pay < rest)
unfolding to_copy_len
full_len rest h = ground arith

transfer_loop :
    (fuel pid rip : ℕ) (t : ExeTable) (b : Block) (i_buf : List ℕ) (off rest : ℕ) (ws : List Write)
    → (t.exes (get_exe pid rip)).pid ≡ pid
    → (t.exes (get_exe pid rip)).rip ≡ rip
    → (t.exes (get_exe pid rip)).code_block ≡ some b
    → off + rest ≡ length i_buf
    → length i_buf ≤ length b.bytes
    → 0 < rest
    → rest ≤ fuel
    → write_loop fuel pid rip i_buf off rest ≡ some ws
    → store_all t ws ≡ some (with_code t (get_exe pid rip) b (finish b.bytes off i_buf) normal)
unfolding store_all
transfer_loop zero pid rip t b i_buf off rest ws p r c e room pos h q = absurd (omega arith)
transfer_loop (suc fuel) pid rip t b i_buf off rest ws p r c e room pos h q =
    elim (Bool-cases (leb rest max_pay)) [
      | inl last ↦
          let n = last_len rest last in
          let nothing : rest - to_copy_len rest ≡ 0 = omega (arith, n) in
          let split =
            write_loop-suc fuel pid rip i_buf off rest ws [] pos
              (rw nothing (write_loop-zero fuel pid rip i_buf _)) q in
          rw split (
            store_cons t _ _ [] (store-packet t pid rip b i_buf off rest p r c e room)
            ∙ rw (last, n, patch_last off rest i_buf b.bytes e) (unfold store_all in refl))
      | inr more ↦
          let (n, big) = full_len rest more in
          let (ws', e') =
            write_loop_total fuel pid rip i_buf (off + to_copy_len rest) (rest - to_copy_len rest)
              (omega (arith, n)) in
          let split = write_loop-suc fuel pid rip i_buf off rest ws ws' pos e' q in
          let chunk = patch b.bytes off (take (to_copy_len rest) (drop off i_buf)) in
          rw split (
            store_cons t _ _ ws' (store-packet t pid rip b i_buf off rest p r c e room)
            ∙ rw more (
                transfer_loop fuel pid rip (with_code t (get_exe pid rip) b chunk un_init)
                  (record b { bytes = chunk }) i_buf (off + to_copy_len rest)
                  (rest - to_copy_len rest) ws' (ground arith) (ground arith) (ground arith)
                  (omega (arith, n))
                  (omega (
                    arith,
                    n,
                    chunk_length (to_copy_len rest) off rest i_buf,
                    length-patch b.bytes (take (to_copy_len rest) (drop off i_buf)) off,
                  ))
                  (omega (arith, n)) (omega (arith, n)) e'
                ∙ ap some (
                    with_code_twice t (get_exe pid rip) b chunk
                      (finish chunk (off + to_copy_len rest) i_buf) un_init normal
                    ∙ ap (λ bytes. with_code t (get_exe pid rip) b bytes normal)
                        (finish-patch (to_copy_len rest) off i_buf b.bytes (omega (arith, n))
                          room))))
    ]

-- A jit.bin that is not empty, is no longer than the daemon's buffer and than the code block, arrives
-- whole: write_sys makes packets, sysfs_store takes each of them without a fault, and afterwards the
-- block starts with the file's bytes, the bytes behind them and every other slot are as before, and
-- the slot is `normal`.
pub transfer :
    (t : ExeTable) (pid rip : ℕ) (b : Block) (file : List ℕ)
    → (t.exes (get_exe pid rip)).pid ≡ pid
    → (t.exes (get_exe pid rip)).rip ≡ rip
    → (t.exes (get_exe pid rip)).code_block ≡ some b
    → 0 < length file
    → length file ≤ sizeof_i_buf
    → length file ≤ length b.bytes
    → (ws : List Write) × (write_sys (some file) pid rip ≡ some ws)
      × (store_all t ws
          ≡ some (with_code t (get_exe pid rip) b (file ++ drop (length file) b.bytes) normal))
unfolding write_sys
transfer t pid rip b file p r c pos small room =
    let (ws, e) = write_loop_total (length file) pid rip file 0 (length file) (omega arith) in
    (
      ws,
      rw (take-all sizeof_i_buf file small) e,
      transfer_loop (length file) pid rip t b file 0 (length file) ws p r c (omega arith) room pos
          (omega arith) e,
    )
