-- ===== src/Pages/Change/Total.antt =====
-- The counts of the direct mapping over a change: its size.
pub mod Rounds
pub mod Loop
pub mod Requested
use userspace_bypass.Prelude.{
  ap, ℕ, zero, suc, ◌+◌, ◌*◌, ◌-◌, ◌^◌, ◌≡◌, refl, ◌∙◌, Bool, true, false, Option, none, some,
  arith, u64, ltb, ◌==◌, ◌&&◌, ◌||◌, not, if◌then◌else◌,
}
use userspace_bypass.Pages.{
  Prot, Level, level_none, level_4k, level_2m, level_1g, level_512g, Leaf, Tables, prot_eq,
  static_protections,
}
use userspace_bypass.Pages.Cpa.{
  Cpa, Pgd, no_pgd, init_mm_pgd, other_pgd, Mem, Platform, Out, Errno, success, eperm, enomem,
  efault, einval, Counts, split_page_count, put_tables, tables_of, lookup_address_cpa, cpa_addr,
  cpa_pfn_in_highmap,
}
use userspace_bypass.Pages.Split.{
  Decision, must_split, keep_page, invalid, Checked, fit, try_large_page, check_large_page,
  should_split_again, should_split_large_page, split_2m, split_1g, install, give_back, split_entry,
  split_again, alloc_pages, split_large_page,
}
use userspace_bypass.Pages.Change.{
  process_kernel_fault, cpa_process_fault, change_pte, after_split, after_check, change_large_page,
  change_entry, change_page_at, change_page_attr, advance, after_alias, after_change, offered,
  change_pages, restore_numpages, no_alias, change_page_attr_set_clr_0, alias_cpa, forced_flush,
  ignore_result, process_high_alias, after_direct_alias, cpa_process_alias,
  change_page_attr_set_clr,
}

-- The size in pages of 4k, with the wrap-around of the counts.
unfoldable pub total : Counts → ℕ
total d = u64 (d.count_4k + d.count_2m * 512 + d.count_1g * 2 ^ 18)

split_page_count-total : (level : Level) (d : Counts) → total (split_page_count level d) ≡ total d
unfolding total split_page_count
split_page_count-total level_2m d = ground arith
split_page_count-total level_1g d = ground arith
split_page_count-total level_none d = refl
split_page_count-total level_4k d = refl
split_page_count-total level_512g d = refl

put_tables-counts : (g : Pgd) (t : Tables) (m : Mem) → (put_tables g t m).counts ≡ m.counts
unfolding put_tables
put_tables-counts no_pgd t m = refl
put_tables-counts init_mm_pgd t m = refl
put_tables-counts other_pgd t m = refl

-- A request of init_mm, with the direct mapping of n pages.
abbrev pub Kept : ℕ → Cpa → Mem → Type 0
Kept n c m = (c.pgd ≡ no_pgd) × (total m.counts ≡ n)

unfoldable pub IsKept : ℕ → Option Out → Type 0
IsKept n none = Unit
IsKept n (some o) = Kept n o.cpa o.mem

put_tables-total :
    (g : Pgd) (t : Tables) (m : Mem) → total (put_tables g t m).counts ≡ total m.counts
put_tables-total g t m = ap total (put_tables-counts g t m)

process_kernel_fault-IsKept :
    (p : Platform) (vaddr : ℕ) (primary : Bool) (c : Cpa) (m : Mem) (n : ℕ)
    → Kept n c m
    → IsKept n (some (process_kernel_fault p vaddr primary c m))
unfolding IsKept process_kernel_fault
process_kernel_fault-IsKept p vaddr primary c m n (g, e) = (ground arith, ground arith)

pub change_pte-IsKept :
    (p : Platform) (address : ℕ) (old : Leaf) (c : Cpa) (m : Mem) (n : ℕ)
    → Kept n c m
    → IsKept n (some (change_pte p address old c m))
unfolding IsKept change_pte
change_pte-IsKept p address old c m n (g, e) = (ground arith, grind (arith, put_tables-total))

pub cpa_process_fault-IsKept :
    (p : Platform) (g : Pgd) (vaddr : ℕ) (primary : Bool) (c : Cpa) (m : Mem) (n : ℕ)
    → g ≡ no_pgd
    → Kept n c m
    → IsKept n (cpa_process_fault p g vaddr primary c m)
unfolding cpa_process_fault
cpa_process_fault-IsKept p g vaddr primary c m n e h =
    rw e (process_kernel_fault-IsKept p vaddr primary c m n h)

fit-pgd : (level : Level) (address pfn : ℕ) (c : Cpa) → (fit level address pfn c).pgd ≡ c.pgd
unfolding fit
fit-pgd level address pfn c = refl

try_large_page-Kept :
    (p : Platform) (l : Leaf) (level : Level) (address : ℕ) (c : Cpa) (m : Mem) (n : ℕ)
    → Kept n c m
    → let s = try_large_page p l level address c m in Kept n s.cpa s.mem
unfolding try_large_page
try_large_page-Kept p l level address c m n (g, e) =
    (grind (arith, fit-pgd), grind (arith, put_tables-total))

check_large_page-Kept :
    (p : Platform) (x : Option Leaf × Level) (address : ℕ) (c : Cpa) (m : Mem) (n : ℕ)
    → Kept n c m
    → let s = check_large_page p x address c m in Kept n s.cpa s.mem
unfolding check_large_page
check_large_page-Kept p (some l, level_2m) address c m n h =
    try_large_page-Kept p l level_2m address c m n h
check_large_page-Kept p (some l, level_1g) address c m n h =
    try_large_page-Kept p l level_1g address c m n h
check_large_page-Kept p (some l, level_none) address c m n h = h
check_large_page-Kept p (some l, level_4k) address c m n h = h
check_large_page-Kept p (some l, level_512g) address c m n h = h
check_large_page-Kept p (none, level) address c m n h = h

pub should_split_large_page-Kept :
    (p : Platform) (kpte : Level) (address : ℕ) (c : Cpa) (m : Mem) (n : ℕ)
    → Kept n c m
    → let s = should_split_large_page p kpte address c m in Kept n s.cpa s.mem
unfolding should_split_large_page should_split_again
should_split_large_page-Kept p kpte address c m n (g, e) =
    let last = check_large_page-Kept p (lookup_address_cpa c m address) address c m n (g, e) in
    (ground (arith, last.0), ground (arith, last.1))

install-total :
    (p : Platform) (level : Level) (address : ℕ) (c : Cpa) (t : Tables) (m : Mem)
    → total (install p level address c t m).counts ≡ total m.counts
unfolding install
install-total p level address c t m = grind (arith, split_page_count-total)

split_entry-total :
    (p : Platform) (x : Option Leaf × Level) (address : ℕ) (c : Cpa) (m : Mem)
    → total (split_entry p x address c m).counts ≡ total m.counts
unfolding split_entry give_back
split_entry-total p (some l, level_2m) address c m =
    install-total p level_2m address c (split_2m p m.tables c l address (tables_of c.pgd m)) m
split_entry-total p (some l, level_1g) address c m =
    install-total p level_1g address c (split_1g p m.tables c l address (tables_of c.pgd m)) m
split_entry-total p (some l, level_none) address c m = refl
split_entry-total p (some l, level_4k) address c m = refl
split_entry-total p (some l, level_512g) address c m = refl
split_entry-total p (none, level) address c m = refl

split_again-total :
    (p : Platform) (kpte : Level) (address : ℕ) (c : Cpa) (m : Mem)
    → total (split_again p kpte address c m).counts ≡ total m.counts
unfolding split_again give_back
split_again-total p kpte address c m =
    let entry = split_entry-total p (lookup_address_cpa c m address) address c m in
    ground (arith, entry)

pub split_large_page-total :
    (p : Platform) (kpte : Level) (address : ℕ) (c : Cpa) (m : Mem)
    → total (split_large_page p kpte address c m).1.counts ≡ total m.counts
unfolding split_large_page alloc_pages
split_large_page-total p kpte address c m =
    let again = split_again-total p kpte address c (alloc_pages p m) in ground (arith, again)
