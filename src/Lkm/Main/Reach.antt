-- ===== src/Lkm/Main/Reach.antt =====
-- What holds of the loaded module after any syscalls, reads and writes of the file.
use mathlib.Core.Option.{some-injective, none-ne-some}
use userspace_bypass.Prelude.{ℕ, ◌≤◌, ◌≡◌, some, true, [], Bool-cases, inl, inr, Option-cases, ◌==◌}
use userspace_bypass.Regs.{Regs}
use userspace_bypass.Lkm.Exe.{ExeInfo, ExeTable, Allocator, exe_init}
use userspace_bypass.Lkm.Exe.Used.{is_used}
use userspace_bypass.Lkm.Exe.Add.{IsSound, exe_init-IsSound}
use userspace_bypass.Lkm.Sys.{Write, slot_matches, sysfs_show, sysfs_store}
use userspace_bypass.Lkm.Sys.Show.{sysfs_show_lem}
use userspace_bypass.Lkm.Sys.Store.{target, sysfs_store-IsSound}
use userspace_bypass.Lkm.OnCall.{Machine, OnCall, exe_on_call}
use userspace_bypass.Lkm.OnCall.Frame.{exe_on_call-IsKept}
use userspace_bypass.Lkm.Stat.{Event, zeroed}
use userspace_bypass.Lkm.Stat.Bounds.{IsBounded, zeroed-IsBounded, stat_func-IsBounded}
use userspace_bypass.Lkm.Stat.Hot.{stat_func-only}
use userspace_bypass.Lkm.Main.{Call, Live, wants_stat, take_stat, settle, after_chain, enter, func}

-- One step of the loaded module. A write is for a key that its writer has read from the table.
pub data Step {W : Type 0} (m : Machine W) (a : Allocator) (l : Live) (l' : Live) : Type 0 where
  call :
      (fuel : ℕ) (c : Call W) (r : Regs) (w : W)
      → func fuel m a c l ≡ some (l', r, w)
      → Step m a l l'
  read : l' ≡ record l { stat_flag = (sysfs_show l.table l.stat_flag).2 } → Step m a l l'
  write :
      (w : Write) (t : ExeTable)
      → (slot_matches (target l.table w) w.head ≡ true → is_used (target l.table w) ≡ true)
      → sysfs_store l.table w ≡ some t
      → l' ≡ record l { table = t }
      → Step m a l l'

pub data Reach {W : Type 0} (m : Machine W) (a : Allocator) (l : Live) : Live → Type 0 where
  here : Reach m a l l
  next : {k n : Live} → Reach m a l k → Step m a k n → Reach m a l n

pub record IsOk (l : Live) : Type 0 where
  pub sound : IsSound l.table
  pub bounded : (cpu : ℕ) → IsBounded (l.info cpu)

take_stat-IsOk :
    (a : Allocator) (cpu : ℕ) (e : Event) (l : Live) → IsOk l → IsOk (take_stat a cpu e l)
unfolding take_stat
take_stat-IsOk a cpu e l ok = record {
  sound = (stat_func-only a e (l.info cpu) l.table ok.sound).0;
  bounded = λ i. elim (Bool-cases (cpu == i)) [
    | inl c ↦ rw c (stat_func-IsBounded a e (l.info cpu) l.table (ok.bounded cpu))
    | inr c ↦ rw c (ok.bounded i)
  ];
}

after_chain-IsOk :
    {W : Type 0} (a : Allocator) (c : Call W) (l : Live) (s : OnCall W)
    → IsOk l
    → IsSound (record { exes = s.exes; added = l.table.added })
    → IsOk (after_chain a c l s).0
unfolding after_chain settle
after_chain-IsOk a c l s ok sound =
    let settled : IsOk (settle l s) = record { sound = sound; bounded = ok.bounded } in
    elim (Bool-cases (wants_stat l.stat_flag)) [
      | inl w ↦ rw w (take_stat-IsOk a c.cpu_id _ (settle l s) settled)
      | inr w ↦ rw w settled
    ]

func-IsOk :
    {W : Type 0} (fuel : ℕ) (m : Machine W) (a : Allocator) (c : Call W) (l l' : Live) (r : Regs)
    (w : W)
    → IsOk l
    → func fuel m a c l ≡ some (l', r, w)
    → IsOk l'
unfolding func enter
func-IsOk fuel m a c l l' r w ok e = elim (Option-cases (exe_on_call fuel m c.pid (enter c l))) [
  | inl f ↦ absurd (none-ne-some _ (rw (f, func) at e))
  | inr (s, f) ↦
      let done : after_chain a c l s ≡ (l', r, w) = some-injective _ _ (rw (f, func) at e) in
      rw done at (
        after_chain-IsOk a c l s ok
          (exe_on_call-IsKept m c.pid fuel l.table.added (enter c l) s f ok.sound).0)
]

step-IsOk :
    {W : Type 0} (m : Machine W) (a : Allocator) (l l' : Live) → Step m a l l' → IsOk l → IsOk l'
step-IsOk m a l l' (call fuel c r w e) ok = func-IsOk fuel m a c l l' r w ok e
step-IsOk m a l l' (read e) ok = rw e (record { sound = ok.sound; bounded = ok.bounded })
step-IsOk m a l l' (write w t known s e) ok =
    rw e (record { sound = sysfs_store-IsSound l.table t w ok.sound known s; bounded = ok.bounded })

Reach-IsOk :
    {W : Type 0} {m : Machine W} {a : Allocator} {l l' : Live} → IsOk l → Reach m a l l' → IsOk l'
Reach-IsOk ok here = ok
Reach-IsOk ok (next r st) = step-IsOk _ _ _ _ st (Reach-IsOk ok r)

-- The loaded module right after exe_init and stat_init.
abbrev pub loaded : (ℕ → ExeInfo) → ℕ → Live
loaded raw stat_flag = record {
  stat_flag = stat_flag;
  info = λ cpu. zeroed;
  table = exe_init raw;
  log = [];
}

-- From loading on, after any syscalls, reads and writes for keys that the table holds, the table is
-- sound, every processor's counters are in their bounds, and a read of the file fits in a page.
pub Reach-loaded :
    {W : Type 0} {m : Machine W} {a : Allocator} (raw : ℕ → ExeInfo) (stat_flag : ℕ) (l : Live)
    → Reach m a (loaded raw stat_flag) l
    → IsOk l × ((sysfs_show l.table l.stat_flag).1 ≤ 4096)
Reach-loaded raw stat_flag l r =
    let ok : IsOk l =
      Reach-IsOk (record { sound = exe_init-IsSound raw; bounded = λ cpu. zeroed-IsBounded }) r in
    (ok, (sysfs_show_lem l.table l.stat_flag ok.sound).0)
