-- ===== src/Lkm/Exe/Add.antt =====
-- What exe_add does to the table, and the invariant of the table.
use userspace_bypass.Prelude.{
  ℕ, zero, suc, ◌*◌, ◌≤◌, ◌<◌, ◌≡◌, refl, arith, true, false, update, ◌⊎◌, inl, inr,
}
use userspace_bypass.Lkm.Hash.{max_exe}
use userspace_bypass.Lkm.Exe.{
  ExeInfo, ExeTable, Allocator, num_pg, get_exe, init_slots, exe_init, claim, exe_add,
}
use userspace_bypass.Lkm.Exe.Used.{is_used, used, one_if-le, used-update, get_exe-lt}

-- `added` counts at least the slots in use and stops at 63, and a slot in use lies where the hash
-- of its key says.
pub record IsSound (t : ExeTable) : Type 0 where
  pub counted : used max_exe t.exes ≤ t.added
  pub capped : t.added ≤ 63
  pub keyed :
      (i : ℕ) → i < max_exe → is_used (t.exes i) ≡ true → get_exe (t.exes i).pid (t.exes i).rip ≡ i

used-init_slots : (n m : ℕ) (raw : ℕ → ExeInfo) → n ≤ m → used n (init_slots m raw) ≡ 0
unfolding used init_slots is_used
used-init_slots zero m raw h = refl
used-init_slots (suc n) m raw h = ground (arith, used-init_slots n m raw)

pub exe_init-IsSound : (raw : ℕ → ExeInfo) → IsSound (exe_init raw)
unfolding exe_init init_slots is_used
exe_init-IsSound raw = record {
  counted = omega (arith, used-init_slots max_exe max_exe raw);
  capped = omega arith;
  keyed = λ i h u. ground arith;
}

-- exe_add does nothing on a slot in use or a full table, and otherwise takes the slot of the key and
-- no other.
pub exe_add_cases :
    (a : Allocator) (pid rip : ℕ) (t : ExeTable)
    → ((is_used (t.exes (get_exe pid rip)) ≡ true) ⊎ (62 < t.added)) × (exe_add a pid rip t ≡ t)
      ⊎ (is_used (t.exes (get_exe pid rip)) ≡ false)
        × (t.added ≤ 62)
        × (exe_add a pid rip t ≡ record {
          exes = update t.exes (get_exe pid rip) (
              claim
                (a.set_memory_x (a.vmalloc t.added (4096 * num_pg)) num_pg)
                pid
                rip
                (t.exes (get_exe pid rip)));
          added = suc t.added;
        })
unfolding exe_add is_used
exe_add_cases a pid rip t = ground arith

-- Taking the free slot at which a new entry's key belongs keeps the invariant.
take_slot-IsSound :
    (t : ExeTable) (pos : ℕ) (v : ExeInfo)
    → IsSound t
    → pos < max_exe
    → is_used (t.exes pos) ≡ false
    → t.added ≤ 62
    → is_used v ≡ true
    → get_exe v.pid v.rip ≡ pos
    → IsSound (record { exes = update t.exes pos v; added = suc t.added })
take_slot-IsSound t pos v s lt free room u key = record {
  counted = ground (arith, used-update max_exe t.exes pos v lt);
  capped = omega arith;
  keyed = λ i h w. ground (arith, s.keyed i h);
}

-- exe_add keeps the table sound.
pub exe_add-IsSound :
    (a : Allocator) (pid rip : ℕ) (t : ExeTable) → IsSound t → IsSound (exe_add a pid rip t)
unfolding is_used claim
exe_add-IsSound a pid rip t s = elim (exe_add_cases a pid rip t) [
  | inl (_, e) ↦ rw e s
  | inr (free, room, e) ↦
      rw e (take_slot-IsSound t (get_exe pid rip) _ s (get_exe-lt pid rip) free room refl refl)
]

-- So does rewriting a slot in use, as long as its key stays.
pub write_slot-IsSound :
    (t : ExeTable) (pos : ℕ) (v : ExeInfo)
    → IsSound t
    → pos < max_exe
    → is_used (t.exes pos) ≡ true
    → v.pid ≡ (t.exes pos).pid
    → v.rip ≡ (t.exes pos).rip
    → IsSound (record t { exes = update t.exes pos v })
write_slot-IsSound t pos v s lt u p r = record {
  counted = grind (arith, used-update max_exe t.exes pos v lt, one_if-le);
  capped = s.capped;
  keyed = λ i h w. ground (arith, s.keyed i h, s.keyed pos lt u);
}
