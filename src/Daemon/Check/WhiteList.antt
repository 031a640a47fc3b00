-- ===== src/Daemon/Check/WhiteList.antt =====
-- The daemon acts on the sites of its white-list only.
use mathlib.Core.Option.{some-injective, none-ne-some}
use userspace_bypass.Prelude.{
  Bool-cases, ==_iff, ◌⊎◌, ◌==◌, ltb, ℕ, zero, suc, ◌+◌, ◌-◌, ◌≡◌, arith, true, false, Option, none,
  some, List, [], ◌∷◌, inl, inr, Option-cases, length, take,
}
use userspace_bypass.Lkm.Exe.{ExeInfo, normal}
use userspace_bypass.Daemon.Check.History.{IsUnseen}
use userspace_bypass.Lkm.Sys.{Write}
use userspace_bypass.Daemon.WriteSys.{to_copy_len, write_loop, write_sys, sizeof_i_buf}
use userspace_bypass.Daemon.Check.{
  targets, find_ip, in_hist, in_records, max_records, max_cmd_hist, Effect, warn, run, compile,
  write, Daemon, start, in_targets, warn_once, run_new, push_writes, Files, send_writes, send,
  command, boost, check_one, check_all, check, main_from, main_loop,
}

-- A site of a list.
abbrev pub IsAmong : ℕ → List ℕ → Type 0
IsAmong ip [] = ⊥
IsAmong ip (x ∷ xs) = (ip ≡ x) ⊎ IsAmong ip xs

find_ip-IsAmong : (ip : ℕ) (xs : List ℕ) → find_ip ip xs ≡ true → IsAmong ip xs
unfolding find_ip
find_ip-IsAmong ip [] h = absurd (ground arith)
find_ip-IsAmong ip (x ∷ xs) h = elim (Bool-cases (ip == x)) [
  | inl e ↦ inl ((==_iff ip x).0 e)
  | inr e ↦ inr (find_ip-IsAmong ip xs (ground arith))
]

find_ip-IsUnseen : (ip : ℕ) (xs : List ℕ) → find_ip ip xs ≡ false → IsUnseen ip xs
unfolding find_ip
find_ip-IsUnseen ip [] h = tt
find_ip-IsUnseen ip (x ∷ xs) h = (ground arith, find_ip-IsUnseen ip xs (ground arith))

in_targets-IsAmong : (ip : ℕ) → in_targets ip ≡ true → IsAmong ip targets
unfolding in_targets
in_targets-IsAmong ip h = find_ip-IsAmong ip targets h

in_targets-IsUnseen : (ip : ℕ) → in_targets ip ≡ false → IsUnseen ip targets
unfolding in_targets
in_targets-IsUnseen ip h = find_ip-IsUnseen ip targets h

-- Code is compiled and sent for listed sites, and only the others are warned about.
abbrev pub IsListed : Effect → Type 0
IsListed (warn ip) = IsUnseen ip targets
IsListed (run cmd) = Unit {0}
IsListed (compile pid rip) = IsAmong rip targets
IsListed (write w) = IsAmong w.head.rip targets

abbrev pub AllListed : List Effect → Type 0
AllListed [] = Unit {0}
AllListed (e ∷ es) = IsListed e × AllListed es

abbrev AllFor : ℕ → List Write → Type 0
AllFor rip [] = Unit {0}
AllFor rip (w ∷ ws) = (w.head.rip ≡ rip) × AllFor rip ws

write_loop-AllFor :
    (fuel pid rip : ℕ) (i_buf : List ℕ) (off rest : ℕ) (ws : List Write)
    → write_loop fuel pid rip i_buf off rest ≡ some ws
    → AllFor rip ws
unfolding write_loop
write_loop-AllFor zero pid rip i_buf off rest ws e = ground arith
write_loop-AllFor (suc fuel) pid rip i_buf off rest [] e = tt
write_loop-AllFor (suc fuel) pid rip i_buf off rest (w ∷ ws) e = ground (
  arith,
  write_loop-AllFor fuel pid rip i_buf (off + to_copy_len rest) (rest - to_copy_len rest) ws,
)

write_sys-AllFor :
    (file : Option (List ℕ)) (pid rip : ℕ) (ws : List Write)
    → write_sys file pid rip ≡ some ws
    → AllFor rip ws
unfolding write_sys
write_sys-AllFor none pid rip ws e = absurd (none-ne-some _ e)
write_sys-AllFor (some file) pid rip ws e =
    let i_buf = take sizeof_i_buf file in
    write_loop-AllFor (length i_buf) pid rip i_buf 0 (length i_buf) ws e

push_writes-AllListed :
    (rip : ℕ) (ws : List Write) (d : Daemon)
    → IsAmong rip targets
    → AllFor rip ws
    → AllListed d.done
    → AllListed (push_writes ws d).done
unfolding push_writes
push_writes-AllListed rip [] d l a h = h
push_writes-AllListed rip (w ∷ ws) d l a h = push_writes-AllListed rip ws _ l a.1 (rw (a.0) l, h)

run_new-AllListed :
    (cmd : List ℕ) (e : ExeInfo) (d d' : Daemon)
    → IsAmong e.rip targets
    → AllListed d.done
    → run_new cmd e d ≡ some d'
    → AllListed d'.done
unfolding run_new
run_new-AllListed cmd e d d' l h q = elim (Bool-cases (in_hist cmd d.cmd_hist)) [
  | inl old ↦ let same : d ≡ d' = some-injective _ _ (rw (old, run_new) at q) in rw (← same) h
  | inr new ↦ elim (Bool-cases (ltb (length d.cmd_hist) max_cmd_hist)) [
    | inl room ↦ rw (← some-injective _ _ (rw (new, room, run_new) at q)) (l, (tt, h))
    | inr full ↦ absurd (none-ne-some _ (rw (new, full, run_new) at q))
  ]
]

boost-AllListed :
    (files : Files) (cmd : Option (List ℕ)) (e : ExeInfo) (d d' : Daemon)
    → IsAmong e.rip targets
    → AllListed d.done
    → boost files cmd e d ≡ some d'
    → AllListed d'.done
unfolding boost send send_writes
boost-AllListed files none e d d' l h q = rw (some-injective _ _ q) at h
boost-AllListed files (some cmd) e d d' l h q = elim (Option-cases (run_new cmd e d)) [
  | inl f ↦ absurd (none-ne-some _ (rw (f, send) at q))
  | inr (k, f) ↦ elim (Option-cases (write_sys (files k.done e.rip) e.pid e.rip)) [
    | inl g ↦ absurd (none-ne-some _ (rw (f, send, g, send_writes) at q))
    | inr (ws, g) ↦
        let done : push_writes ws k ≡ d' = some-injective _ _ (rw (f, send, g, send_writes) at q) in
        rw done at (
          push_writes-AllListed e.rip ws k l (write_sys-AllFor _ e.pid e.rip ws g)
            (run_new-AllListed cmd e d k l h f))
  ]
]

warn_once-AllListed :
    (ip : ℕ) (d d' : Daemon)
    → IsUnseen ip targets
    → AllListed d.done
    → warn_once ip d ≡ some d'
    → AllListed d'.done
unfolding warn_once
warn_once-AllListed ip d d' l h q = elim (Bool-cases (in_records ip d)) [
  | inl old ↦ let same : d ≡ d' = some-injective _ _ (rw (old, warn_once) at q) in rw (← same) h
  | inr new ↦ elim (Bool-cases (ltb d.cnts max_records)) [
    | inl room ↦ rw (← some-injective _ _ (rw (new, room, warn_once) at q)) (l, h)
    | inr full ↦ absurd (none-ne-some _ (rw (new, full, warn_once) at q))
  ]
]

check_one-AllListed :
    (files : Files) (e : ExeInfo) (d d' : Daemon)
    → AllListed d.done
    → check_one files e d ≡ some d'
    → AllListed d'.done
unfolding check_one
check_one-AllListed files e d d' h q = elim (Bool-cases (in_targets e.rip)) [
  | inl on ↦ elim (Bool-cases (e.status_code == normal)) [
    | inl idle ↦
        let same : d ≡ d' = some-injective _ _ (rw (on, idle, check_one) at q) in rw (← same) h
    | inr busy ↦
        boost-AllListed files (command e) e d d' (in_targets-IsAmong e.rip on) h
          (rw (on, busy, check_one) at q)
  ]
  | inr off ↦
      warn_once-AllListed e.rip d d' (in_targets-IsUnseen e.rip off) h (rw (off, check_one) at q)
]

check_all-AllListed :
    (files : Files) (es : List ExeInfo) (d d' : Daemon)
    → AllListed d.done
    → check_all files es d ≡ some d'
    → AllListed d'.done
unfolding check_all
check_all-AllListed files [] d d' h q = rw (some-injective _ _ q) at h
check_all-AllListed files (e ∷ es) d d' h q = elim (Option-cases (check_one files e d)) [
  | inl f ↦ absurd (none-ne-some _ (rw (f, check_all) at q))
  | inr (k, f) ↦
      check_all-AllListed files es k d' (check_one-AllListed files e d k h f)
        (rw (f, check_all) at q)
]

main_from-AllListed :
    (files : Files) (passes : List (List ExeInfo)) (d d' : Daemon)
    → AllListed d.done
    → main_from files passes d ≡ some d'
    → AllListed d'.done
unfolding main_from check
main_from-AllListed files [] d d' h q = rw (some-injective _ _ q) at h
main_from-AllListed files (es ∷ passes) d d' h q = elim (Option-cases (check files es d)) [
  | inl f ↦ absurd (none-ne-some _ (rw (f, main_from) at q))
  | inr (k, f) ↦
      main_from-AllListed files passes k d' (check_all-AllListed files (take 73 es) d k h f)
        (rw (f, main_from) at q)
]

-- Over any passes of the daemon that do not fault, only sites that stand in `targets` are compiled and
-- written to, and only sites that do not are warned about.
pub main_loop-AllListed :
    (files : Files) (passes : List (List ExeInfo)) (d : Daemon)
    → main_loop files passes ≡ some d
    → AllListed d.done
unfolding main_loop start
main_loop-AllListed files passes d q =
    main_from-AllListed files passes start d (unfold start in tt) q
