-- ===== src/Daemon/WriteSys.antt =====
-- write_sys: a code image sent to the module in packets of at most 4000 bytes.
use mathlib.Core.Option
use userspace_bypass.Prelude.{
  Bool-cases, inl, inr, ℕ, zero, suc, ◌+◌, ◌-◌, ◌*◌, ◌≤◌, ◌≡◌, arith, Option, none, some, List, [],
  ◌∷◌, leb, ◌==◌, if◌then◌else◌, length, take, drop,
}
use userspace_bypass.Lkm.Exe.{normal, un_init}
use userspace_bypass.Lkm.Sys.{Write, sizeof_recv_pkt}

abbrev pub max_pay : ℕ
max_pay = 4000

-- The size of `i_buf`, at which fread stops.
abbrev pub sizeof_i_buf : ℕ
sizeof_i_buf = 4096 * 256

unfoldable pub to_copy_len : ℕ → ℕ
to_copy_len rest_len = if leb rest_len max_pay then rest_len else max_pay

-- One packet: the header, with the status that ends or continues the transfer, and its part of `i_buf`.
unfoldable pub packet : ℕ → ℕ → List ℕ → ℕ → ℕ → Write
unfolding to_copy_len
packet pid rip i_buf offset rest_len = record {
  head = record {
    status_code = if leb rest_len max_pay then normal else un_init;
    pid = pid;
    rip = rip;
    offset = offset;
  };
  body = take (to_copy_len rest_len) (drop offset i_buf);
  count = sizeof_recv_pkt + to_copy_len rest_len;
}

-- The loop `while(rest_len > 0)`, on fuel.
unfoldable pub write_loop : ℕ → ℕ → ℕ → List ℕ → ℕ → ℕ → Option (List Write)
unfolding packet
write_loop zero pid rip i_buf offset rest_len = if rest_len == 0 then some [] else none
write_loop (suc fuel) pid rip i_buf offset rest_len =
    let n = to_copy_len rest_len in
    let more = write_loop fuel pid rip i_buf (offset + n) (rest_len - n) in
    if rest_len == 0
    then some []
    else Option.map (λ ws. packet pid rip i_buf offset rest_len ∷ ws) more

-- The writes to the sysfs file, in order. The bytes of the file are at most `sizeof_i_buf` rounds.
unfoldable pub write_sys : Option (List ℕ) → ℕ → ℕ → Option (List Write)
unfolding write_loop
write_sys none pid rip = none
write_sys (some file) pid rip =
    let i_buf = take sizeof_i_buf file in write_loop (length i_buf) pid rip i_buf 0 (length i_buf)

-- Enough fuel is one round for each byte left.
pub write_loop_total :
    (fuel pid rip : ℕ) (i_buf : List ℕ) (offset rest_len : ℕ)
    → rest_len ≤ fuel
    → (ws : List Write) × (write_loop fuel pid rip i_buf offset rest_len ≡ some ws)
unfolding write_loop to_copy_len
write_loop_total zero pid rip i_buf offset rest_len h = ([], ground arith)
write_loop_total (suc fuel) pid rip i_buf offset rest_len h =
    let n = to_copy_len rest_len in
    let (ws, e) = write_loop_total fuel pid rip i_buf (offset + n) (rest_len - n) (ground arith) in
    elim (Bool-cases (rest_len == 0)) [
      | inl done ↦ ([], rw done)
      | inr more ↦ (packet pid rip i_buf offset rest_len ∷ ws, rw (more, e))
    ]
