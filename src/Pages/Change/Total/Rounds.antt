-- ===== src/Pages/Change/Total/Rounds.antt =====
-- The size of the direct mapping over the rounds of __change_page_attr.
use userspace_bypass.Prelude.{ℕ, zero, suc, ◌∙◌, Bool, Option, none, some}
use userspace_bypass.Pages.{Level, level_none, level_4k, level_2m, level_1g, level_512g, Leaf}
use userspace_bypass.Pages.Cpa.{
  Cpa, Mem, Platform, Out, Errno, success, eperm, enomem, efault, einval, lookup_address_cpa,
  cpa_addr,
}
use userspace_bypass.Pages.Split.{
  Decision, must_split, keep_page, invalid, should_split_large_page, split_large_page,
}
use userspace_bypass.Pages.Change.{
  after_split, after_check, change_large_page, change_entry, change_page_at, change_page_attr,
}
use userspace_bypass.Pages.Change.Total.{
  Kept, IsKept, split_large_page-total, should_split_large_page-Kept, change_pte-IsKept,
  cpa_process_fault-IsKept,
}

-- The next round keeps the size.
abbrev pub Repeats : ℕ → (Cpa → Mem → Option Out) → Type 0
Repeats n repeat = (c : Cpa) (m : Mem) → Kept n c m → IsKept n (repeat c m)

after_split-IsKept :
    (n : ℕ) (repeat : Cpa → Mem → Option Out) (c : Cpa) (e : Errno) (m : Mem)
    → Repeats n repeat
    → Kept n c m
    → IsKept n (after_split repeat c (e, m))
unfolding IsKept after_split
after_split-IsKept n repeat c success m next h = next c m h
after_split-IsKept n repeat c eperm m next h = h
after_split-IsKept n repeat c enomem m next h = h
after_split-IsKept n repeat c efault m next h = h
after_split-IsKept n repeat c einval m next h = h

after_check-IsKept :
    (n : ℕ) (p : Platform) (repeat : Cpa → Mem → Option Out) (kpte : Level) (address : ℕ)
    (x : Decision) (c : Cpa) (m : Mem)
    → Repeats n repeat
    → Kept n c m
    → IsKept n (after_check p repeat kpte address x c m)
unfolding IsKept after_check
after_check-IsKept n p repeat kpte address keep_page c m next h = h
after_check-IsKept n p repeat kpte address invalid c m next h = h
after_check-IsKept n p repeat kpte address must_split c m next (g, e) =
    let r = split_large_page p kpte address c m in
    after_split-IsKept n repeat c r.0 r.1 next (g, split_large_page-total p kpte address c m ∙ e)

change_large_page-IsKept :
    (n : ℕ) (p : Platform) (repeat : Cpa → Mem → Option Out) (kpte : Level) (address : ℕ) (c : Cpa)
    (m : Mem)
    → Repeats n repeat
    → Kept n c m
    → IsKept n (change_large_page p repeat kpte address c m)
unfolding change_large_page
change_large_page-IsKept n p repeat kpte address c m next h =
    let s = should_split_large_page p kpte address c m in
    after_check-IsKept n p repeat kpte address s.decision s.cpa s.mem next
      (should_split_large_page-Kept p kpte address c m n h)

change_entry-IsKept :
    (n : ℕ) (p : Platform) (repeat : Cpa → Mem → Option Out) (x : Option Leaf × Level) (address : ℕ)
    (primary : Bool) (c : Cpa) (m : Mem)
    → Repeats n repeat
    → Kept n c m
    → IsKept n (change_entry p repeat x address primary c m)
unfolding change_entry
change_entry-IsKept n p repeat (none, level) address primary c m next h =
    cpa_process_fault-IsKept p c.pgd address primary c m n h.0 h
change_entry-IsKept n p repeat (some old, level_4k) address primary c m next h =
    change_pte-IsKept p address old c m n h
change_entry-IsKept n p repeat (some old, level_none) address primary c m next h =
    change_large_page-IsKept n p repeat level_none address c m next h
change_entry-IsKept n p repeat (some old, level_2m) address primary c m next h =
    change_large_page-IsKept n p repeat level_2m address c m next h
change_entry-IsKept n p repeat (some old, level_1g) address primary c m next h =
    change_large_page-IsKept n p repeat level_1g address c m next h
change_entry-IsKept n p repeat (some old, level_512g) address primary c m next h =
    change_large_page-IsKept n p repeat level_512g address c m next h

change_page_at-IsKept :
    (n : ℕ) (p : Platform) (fuel address : ℕ) (primary : Bool) (c : Cpa) (m : Mem)
    → Kept n c m
    → IsKept n (change_page_at p fuel address primary c m)
unfolding change_page_at IsKept
change_page_at-IsKept n p zero address primary c m h = tt
change_page_at-IsKept n p (suc fuel) address primary c m h =
    change_entry-IsKept n p (change_page_at p fuel address primary) (lookup_address_cpa c m address)
      address primary c m (change_page_at-IsKept n p fuel address primary) h

pub change_page_attr-IsKept :
    (n : ℕ) (p : Platform) (primary : Bool) (c : Cpa) (m : Mem)
    → Kept n c m
    → IsKept n (change_page_attr p primary c m)
unfolding change_page_attr
change_page_attr-IsKept n p primary c m h =
    change_page_at-IsKept n p 3 (cpa_addr c c.curpage) primary c m h
